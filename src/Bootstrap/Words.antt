-- ===== src/Bootstrap/Words.antt =====
-- The words that bootstrap/parse.c compares the text of an identifier with, and those it reserves.
use native_pascal.Prelude.{List, [], ◌∷◌}
use native_pascal.Prelude.Memory.{Bytes}

abbrev pub kw_and : Bytes
kw_and = b'a' ∷ b'n' ∷ b'd' ∷ []

abbrev pub kw_array : Bytes
kw_array = b'a' ∷ b'r' ∷ b'r' ∷ b'a' ∷ b'y' ∷ []

abbrev pub kw_begin : Bytes
kw_begin = b'b' ∷ b'e' ∷ b'g' ∷ b'i' ∷ b'n' ∷ []

abbrev pub kw_case : Bytes
kw_case = b'c' ∷ b'a' ∷ b's' ∷ b'e' ∷ []

abbrev pub kw_const : Bytes
kw_const = b'c' ∷ b'o' ∷ b'n' ∷ b's' ∷ b't' ∷ []

abbrev pub kw_div : Bytes
kw_div = b'd' ∷ b'i' ∷ b'v' ∷ []

abbrev pub kw_do : Bytes
kw_do = b'd' ∷ b'o' ∷ []

abbrev pub kw_downto : Bytes
kw_downto = b'd' ∷ b'o' ∷ b'w' ∷ b'n' ∷ b't' ∷ b'o' ∷ []

abbrev pub kw_else : Bytes
kw_else = b'e' ∷ b'l' ∷ b's' ∷ b'e' ∷ []

abbrev pub kw_end : Bytes
kw_end = b'e' ∷ b'n' ∷ b'd' ∷ []

abbrev pub kw_for : Bytes
kw_for = b'f' ∷ b'o' ∷ b'r' ∷ []

abbrev pub kw_function : Bytes
kw_function = b'f' ∷ b'u' ∷ b'n' ∷ b'c' ∷ b't' ∷ b'i' ∷ b'o' ∷ b'n' ∷ []

abbrev pub kw_goto : Bytes
kw_goto = b'g' ∷ b'o' ∷ b't' ∷ b'o' ∷ []

abbrev pub kw_if : Bytes
kw_if = b'i' ∷ b'f' ∷ []

abbrev pub kw_in : Bytes
kw_in = b'i' ∷ b'n' ∷ []

abbrev pub kw_label : Bytes
kw_label = b'l' ∷ b'a' ∷ b'b' ∷ b'e' ∷ b'l' ∷ []

abbrev pub kw_mod : Bytes
kw_mod = b'm' ∷ b'o' ∷ b'd' ∷ []

abbrev pub kw_not : Bytes
kw_not = b'n' ∷ b'o' ∷ b't' ∷ []

abbrev pub kw_of : Bytes
kw_of = b'o' ∷ b'f' ∷ []

abbrev pub kw_or : Bytes
kw_or = b'o' ∷ b'r' ∷ []

abbrev pub kw_packed : Bytes
kw_packed = b'p' ∷ b'a' ∷ b'c' ∷ b'k' ∷ b'e' ∷ b'd' ∷ []

abbrev pub kw_procedure : Bytes
kw_procedure = b'p' ∷ b'r' ∷ b'o' ∷ b'c' ∷ b'e' ∷ b'd' ∷ b'u' ∷ b'r' ∷ b'e' ∷ []

abbrev pub kw_program : Bytes
kw_program = b'p' ∷ b'r' ∷ b'o' ∷ b'g' ∷ b'r' ∷ b'a' ∷ b'm' ∷ []

abbrev pub kw_record : Bytes
kw_record = b'r' ∷ b'e' ∷ b'c' ∷ b'o' ∷ b'r' ∷ b'd' ∷ []

abbrev pub kw_repeat : Bytes
kw_repeat = b'r' ∷ b'e' ∷ b'p' ∷ b'e' ∷ b'a' ∷ b't' ∷ []

abbrev pub kw_set : Bytes
kw_set = b's' ∷ b'e' ∷ b't' ∷ []

abbrev pub kw_then : Bytes
kw_then = b't' ∷ b'h' ∷ b'e' ∷ b'n' ∷ []

abbrev pub kw_to : Bytes
kw_to = b't' ∷ b'o' ∷ []

abbrev pub kw_type : Bytes
kw_type = b't' ∷ b'y' ∷ b'p' ∷ b'e' ∷ []

abbrev pub kw_until : Bytes
kw_until = b'u' ∷ b'n' ∷ b't' ∷ b'i' ∷ b'l' ∷ []

abbrev pub kw_var : Bytes
kw_var = b'v' ∷ b'a' ∷ b'r' ∷ []

abbrev pub kw_while : Bytes
kw_while = b'w' ∷ b'h' ∷ b'i' ∷ b'l' ∷ b'e' ∷ []

abbrev pub kw_with : Bytes
kw_with = b'w' ∷ b'i' ∷ b't' ∷ b'h' ∷ []

abbrev pub kw_interface : Bytes
kw_interface = b'i' ∷ b'n' ∷ b't' ∷ b'e' ∷ b'r' ∷ b'f' ∷ b'a' ∷ b'c' ∷ b'e' ∷ []

abbrev pub kw_implementation : Bytes
kw_implementation =
    b'i' ∷ b'm' ∷ b'p' ∷ b'l' ∷ b'e' ∷ b'm' ∷ b'e' ∷ b'n' ∷ b't' ∷ b'a' ∷ b't' ∷ b'i' ∷ b'o' ∷ b'n'
    ∷ []

abbrev pub kw_unit : Bytes
kw_unit = b'u' ∷ b'n' ∷ b'i' ∷ b't' ∷ []

abbrev pub kw_uses : Bytes
kw_uses = b'u' ∷ b's' ∷ b'e' ∷ b's' ∷ []

abbrev pub kw_otherwise : Bytes
kw_otherwise = b'o' ∷ b't' ∷ b'h' ∷ b'e' ∷ b'r' ∷ b'w' ∷ b'i' ∷ b's' ∷ b'e' ∷ []

abbrev pub kw_value : Bytes
kw_value = b'v' ∷ b'a' ∷ b'l' ∷ b'u' ∷ b'e' ∷ []

abbrev pub kw_module : Bytes
kw_module = b'm' ∷ b'o' ∷ b'd' ∷ b'u' ∷ b'l' ∷ b'e' ∷ []

abbrev pub kw_xor : Bytes
kw_xor = b'x' ∷ b'o' ∷ b'r' ∷ []

abbrev pub kw_adr : Bytes
kw_adr = b'a' ∷ b'd' ∷ b'r' ∷ []

abbrev pub kw_ads : Bytes
kw_ads = b'a' ∷ b'd' ∷ b's' ∷ []

abbrev pub kw_file : Bytes
kw_file = b'f' ∷ b'i' ∷ b'l' ∷ b'e' ∷ []

abbrev pub kw_string : Bytes
kw_string = b's' ∷ b't' ∷ b'r' ∷ b'i' ∷ b'n' ∷ b'g' ∷ []

abbrev pub kw_super : Bytes
kw_super = b's' ∷ b'u' ∷ b'p' ∷ b'e' ∷ b'r' ∷ []

abbrev pub kw_vector : Bytes
kw_vector = b'v' ∷ b'e' ∷ b'c' ∷ b't' ∷ b'o' ∷ b'r' ∷ []

abbrev pub kw_lstring : Bytes
kw_lstring = b'l' ∷ b's' ∷ b't' ∷ b'r' ∷ b'i' ∷ b'n' ∷ b'g' ∷ []

abbrev pub kw_static : Bytes
kw_static = b's' ∷ b't' ∷ b'a' ∷ b't' ∷ b'i' ∷ b'c' ∷ []

abbrev pub kw_return : Bytes
kw_return = b'r' ∷ b'e' ∷ b't' ∷ b'u' ∷ b'r' ∷ b'n' ∷ []

abbrev pub kw_break : Bytes
kw_break = b'b' ∷ b'r' ∷ b'e' ∷ b'a' ∷ b'k' ∷ []

abbrev pub kw_cycle : Bytes
kw_cycle = b'c' ∷ b'y' ∷ b'c' ∷ b'l' ∷ b'e' ∷ []

abbrev pub kw_vars : Bytes
kw_vars = b'v' ∷ b'a' ∷ b'r' ∷ b's' ∷ []

abbrev pub kw_consts : Bytes
kw_consts = b'c' ∷ b'o' ∷ b'n' ∷ b's' ∷ b't' ∷ b's' ∷ []

abbrev pub kw_c : Bytes
kw_c = b'c' ∷ []

abbrev pub kw_forward : Bytes
kw_forward = b'f' ∷ b'o' ∷ b'r' ∷ b'w' ∷ b'a' ∷ b'r' ∷ b'd' ∷ []

abbrev pub kw_extern : Bytes
kw_extern = b'e' ∷ b'x' ∷ b't' ∷ b'e' ∷ b'r' ∷ b'n' ∷ []

abbrev pub kw_external : Bytes
kw_external = b'e' ∷ b'x' ∷ b't' ∷ b'e' ∷ b'r' ∷ b'n' ∷ b'a' ∷ b'l' ∷ []

abbrev pub kw_device : Bytes
kw_device = b'd' ∷ b'e' ∷ b'v' ∷ b'i' ∷ b'c' ∷ b'e' ∷ []

-- `reserved`, without the NULL that ends it.
abbrev pub reserved : List Bytes
reserved =
    kw_and ∷ kw_array ∷ kw_begin ∷ kw_case ∷ kw_const ∷ kw_div ∷ kw_do ∷ kw_downto ∷ kw_else
    ∷ kw_end ∷ kw_for ∷ kw_function ∷ kw_goto ∷ kw_if ∷ kw_in ∷ kw_label ∷ kw_mod ∷ kw_not ∷ kw_of
    ∷ kw_or ∷ kw_packed ∷ kw_procedure ∷ kw_program ∷ kw_record ∷ kw_repeat ∷ kw_set ∷ kw_then
    ∷ kw_to ∷ kw_type ∷ kw_until ∷ kw_var ∷ kw_while ∷ kw_with ∷ kw_interface ∷ kw_implementation
    ∷ kw_unit ∷ kw_uses ∷ kw_otherwise ∷ kw_value ∷ kw_module ∷ kw_xor ∷ []
