-- ===== src/Bootstrap/Parser/Compilands.antt =====
-- bootstrap/parse.c: interfaces and compilands. A round of a loop costs a unit of fuel.
use native_pascal.Prelude.{
  ℕ, zero, suc, ◌&&◌, Bool, true, false, if◌then◌else◌, List, [], ◌∷◌, ◌++◌, none, some,
}
use native_pascal.Prelude.Memory.{Bytes}
use native_pascal.Bootstrap.Token.{Loc, lparen, rparen, semi, dot}
use native_pascal.Bootstrap.Words.{
  kw_uses, kw_interface, kw_unit, kw_label, kw_begin, kw_end, kw_program, kw_implementation, kw_of,
  kw_module, kw_device,
}
use native_pascal.Bootstrap.Tree.{Stmt, Decl, section, Interface, Compiland}
use native_pascal.Bootstrap.Parser.{
  Parser, compiland_head, pure, stop, ◌>>=◌, ◌>>◌, is_eof_tok, cur, here, test, at_word, expected,
  fatal, text_after_end, unsupported, accept_word, accept_punct, expect_word, expect_punct,
  ident_text, ident_list, label_section, module_compiland, device_compiland,
}
use native_pascal.Bootstrap.Parser.Statements.{stmt_list}
use native_pascal.Bootstrap.Parser.Sections
use native_pascal.Bootstrap.Parser.Sections.{at_section}
use native_pascal.Bootstrap.Parser.Routines.{at_routine, routine_decl}

abbrev pub has_any : {A : Type 0} → List A → Bool
has_any [] = false
has_any (_ ∷ _) = true

module _ {R : Type 0} where
  -- What it adds to the names.
  unfoldable pub uses_clause : ℕ → Parser R (List Bytes)
  uses_clause zero = stop
  uses_clause (suc fuel) = do
    more ← accept_word kw_uses
    if more
        then (do
          names ← ident_list fuel
          expect_punct semi
          rest ← uses_clause fuel
          pure (names ++ rest))
        else pure []

  -- A parenthesized list that only has to parse.
  unfoldable pub skip_list : ℕ → Parser R (Unit {0})
  skip_list fuel = do
    opens ← accept_punct lparen
    if opens then ident_list fuel >> expect_punct rparen else pure tt

  -- The sections and routines of an interface.
  unfoldable pub interface_loop : ℕ → Parser R (List (Decl R))
  interface_loop zero = stop
  interface_loop (suc fuel) = do
    declares ← at_section
    if declares
        then Sections.section fuel >>= (λ d. interface_loop fuel >>= λ ds. pure (section d ∷ ds))
        else do
          routine ← at_routine
          if routine
              then routine_decl fuel true >>= (λ d. interface_loop fuel >>= λ ds. pure (d ∷ ds))
              else do label ← at_word kw_label; if label then unsupported label_section else pure []

  unfoldable pub interface : ℕ → Parser R (Interface R)
  unfolding skip_list uses_clause interface_loop
  interface fuel = do
    loc ← here
    expect_word kw_interface
    expect_punct semi
    expect_word kw_unit
    unit ← ident_text
    skip_list fuel
    expect_punct semi
    uses ← uses_clause fuel
    decls ← interface_loop fuel
    expect_word kw_end
    expect_punct semi
    pure (record { unit = unit; loc = loc; uses = uses; decls = decls })

  -- `while (at_word("interface")) vec_push(&c->ifaces, interface());`
  unfoldable pub iface_loop : ℕ → Parser R (List (Interface R))
  unfolding interface
  iface_loop zero = stop
  iface_loop (suc fuel) = do
    more ← at_word kw_interface
    if more then interface fuel >>= (λ i. iface_loop fuel >>= λ is. pure (i ∷ is)) else pure []

  -- PROGRAM or IMPLEMENTATION: `is_program`, and the name.
  unfoldable pub head : ℕ → Parser R (Bool × Bytes)
  unfolding skip_list
  head fuel = do
    program ← accept_word kw_program
    if program then ident_text >>= (λ name. skip_list fuel >> pure (true, name)) else do
      implements ← accept_word kw_implementation
      if implements then expect_word kw_of >> ident_text >>= (λ name. pure (false, name)) else do
        is_module ← at_word kw_module
        if is_module then unsupported module_compiland else do
          device ← at_word kw_device
          if device then unsupported device_compiland else expected compiland_head

  -- The loop over the declarations, with what it adds to `uses`.
  unfoldable pub decl_loop : ℕ → Parser R (List Bytes × List (Decl R))
  unfolding uses_clause
  decl_loop zero = stop
  decl_loop (suc fuel) = do
    declares ← at_section
    if declares
        then Sections.section fuel
          >>= (λ d. decl_loop fuel >>= λ (us, ds). pure (us, section d ∷ ds))
        else do
          routine ← at_routine
          if routine
              then routine_decl fuel false
                >>= (λ d. decl_loop fuel >>= λ (us, ds). pure (us, d ∷ ds))
              else do
                label ← at_word kw_label
                if label then unsupported label_section else do
                  uses ← at_word kw_uses
                  if uses
                      then uses_clause fuel
                        >>= (λ names. decl_loop fuel >>= λ (us, ds). pure (names ++ us, ds))
                      else pure ([], [])

  -- BEGIN to the final `END.`, with nothing behind it.
  unfoldable pub final_block : ℕ → Parser R (Stmt R)
  final_block fuel = do
    loc ← here
    expect_word kw_begin
    ss ← stmt_list fuel
    expect_word kw_end
    expect_punct dot
    at_eof ← test λ ts. is_eof_tok (cur ts).tok
    place ← here
    if at_eof then pure (Stmt.block loc ss) else λ ts. fatal place text_after_end

  -- Behind the interfaces.
  unfoldable pub compiland_body : ℕ → List (Interface R) → Loc → Parser R (Compiland R)
  unfolding head uses_clause decl_loop final_block
  compiland_body fuel ifaces loc = do
    named ← head fuel
    expect_punct semi
    uses ← uses_clause fuel
    declared ← decl_loop fuel
    body ← final_block fuel
    pure (record {
      ifaces = ifaces;
      is_program = named.0;
      name = some named.1;
      loc = loc;
      uses = uses ++ declared.0;
      decls = declared.1;
      body = some body;
    })

  abbrev pub bare : List (Interface R) → Loc → Compiland R
  bare ifaces loc = record {
    ifaces = ifaces;
    is_program = false;
    name = none;
    loc = loc;
    uses = [];
    decls = [];
    body = none;
  }

  unfoldable pub parse_compiland : ℕ → Parser R (Compiland R)
  unfolding iface_loop compiland_body
  parse_compiland fuel = do
    ifaces ← iface_loop fuel
    loc ← here
    at_eof ← test λ ts. is_eof_tok (cur ts).tok
    if at_eof && has_any ifaces then pure (bare ifaces loc) else compiland_body fuel ifaces loc
