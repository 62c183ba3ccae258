-- ===== src/Program/Printer.antt =====
-- `str` of the instructions, in src/Program/src/Instructions.cpp.
use weak_memory_models_mock.Base.{
  List, [], ◌∷◌, ◌++◌, Bytes, codes, print_size, print_int, if◌then◌else◌,
}
use weak_memory_models_mock.Program.{
  MemoryAccessMode, BinaryOperation, Instruction, addition, subtraction, multiplication, division,
}
use weak_memory_models_mock.Program.Names.{string_to_mode, same_mode}

-- `std::find_if` over the map, for the entry with the mode; every mode has one.
abbrev pub find_mode : List (Bytes × MemoryAccessMode) → MemoryAccessMode → Bytes
find_mode [] mode = []
find_mode ((text, m) ∷ entries) mode = if same_mode m mode then text else find_mode entries mode

abbrev pub to_string : MemoryAccessMode → Bytes
to_string mode = find_mode string_to_mode mode

-- The `switch` of `StoreExprInRegister::str`
abbrev pub bin_operation : BinaryOperation → Bytes
bin_operation addition = codes "+"
bin_operation subtraction = codes "-"
bin_operation multiplication = codes "*"
bin_operation division = codes "/"

unfoldable pub str : Instruction → Bytes
str (Instruction.store_const_in_register r value) = print_size r ++ (codes " = " ++ print_int value)
str (Instruction.store_expr_in_register r left operation right) =
    print_size r
    ++ (codes " = "
        ++ (print_size left
            ++ ((codes " " ++ bin_operation operation ++ codes " ") ++ print_size right)))
str (Instruction.goto r label) =
    codes "if " ++ (print_size r ++ (codes " goto " ++ print_size label))
str (Instruction.load mode address r) =
    (codes "load " ++ to_string mode ++ codes " #")
    ++ (print_size address ++ (codes " " ++ print_size r))
str (Instruction.store mode address r) =
    (codes "store " ++ to_string mode ++ codes " #")
    ++ (print_size address ++ (codes " " ++ print_size r))
str (Instruction.compare_and_swap mode address expected new) =
    (codes "cas " ++ to_string mode ++ codes " #")
    ++ (print_size address ++ (codes " " ++ (print_size expected ++ (codes " " ++ print_size new))))
str (Instruction.fetch_and_increment mode address increment) =
    (codes "fei " ++ to_string mode ++ codes " #")
    ++ (print_size address ++ (codes " " ++ print_size increment))
str (Instruction.fence mode) = codes "fence " ++ to_string mode
