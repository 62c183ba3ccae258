-- ===== src/Storage/Output.antt =====
-- What src/Storage/src/StorageLogger.cpp and `writeStorage` of the SC, the TSO and the PSO manager
-- write into the output stream, which is the list of the bytes written so far.
mod Tests
use weak_memory_models_mock.Base.{
  ℕ, zero, suc, Bool, true, false, Option, none, some, ℤ, List, [], ◌∷◌, ◌++◌, map, Bytes, codes,
  print_size, print_int, leb, if◌then◌else◌, ◌≡◌, refl, inl, inr, sym, Bool-cases, append_assoc,
  append-nil,
}
use weak_memory_models_mock.Storage.AccessMode.{AccessMode}
use weak_memory_models_mock.Storage.Logger.{Entry, Log, LogLevel}
use weak_memory_models_mock.Storage.Memory.{Storage}
use weak_memory_models_mock.Storage.Sc.{Sc}
use weak_memory_models_mock.Storage.Tso.{Tso}
use weak_memory_models_mock.Storage.Tso.Buffer.{StoreInstruction, Buffer}
use weak_memory_models_mock.Storage.Pso.{Pso}
use weak_memory_models_mock.Storage.Pso.Buffers.{AddressBuffer, ThreadBuffer}

-- The cast to `int` that compares the values of `LogLevel`
abbrev pub level_number : LogLevel → ℕ
level_number LogLevel.error = 0
level_number LogLevel.warning = 1
level_number LogLevel.info = 2
level_number LogLevel.extra_info = 3

abbrev pub at_least : LogLevel → LogLevel → Bool
at_least level bound = leb (level_number bound) (level_number level)

abbrev pub to_string : AccessMode → Bytes
to_string AccessMode.sequential_consistency = codes "SEQ_CST"
to_string AccessMode.release = codes "REL"
to_string AccessMode.acquire = codes "ACQ"
to_string AccessMode.release_acquire = codes "REL_ACQ"
to_string AccessMode.relaxed = codes "RLX"

-- The three methods of `StorageLoggerImpl` that write a line.
abbrev pub error : LogLevel → Bytes → Bytes → Bytes
error level log stream =
    if at_least level LogLevel.error then stream ++ codes "ERROR: " ++ log ++ codes "\n" else stream

abbrev pub warning : LogLevel → Bytes → Bytes → Bytes
warning level log stream =
    if at_least level LogLevel.warning
    then stream ++ codes "WARN: " ++ log ++ codes "\n"
    else stream

unfoldable pub info : LogLevel → Bytes → Bytes → Bytes
info level log stream =
    if at_least level LogLevel.info then stream ++ (log ++ codes "\n") else stream

-- The loops with `isFirstIteration`: the texts with a space between each two.
abbrev pub spaced : List Bytes → Bytes
spaced [] = []
spaced (text ∷ []) = text
spaced (text ∷ next ∷ texts) = text ++ codes " " ++ spaced (next ∷ texts)

-- "t{}#{}: {}", the place that an action is about.
abbrev pub place : ℕ → ℕ → AccessMode → Bytes
place thread address mode =
    codes "t"
    ++ print_size thread
    ++ codes "#"
    ++ print_size address
    ++ codes ": "
    ++ to_string mode

abbrev pub load : ℕ → ℕ → AccessMode → ℤ → Bytes
load thread address mode result =
    codes "ACTION: "
    ++ place thread address mode
    ++ codes " load ("
    ++ print_int result
    ++ codes ")"

abbrev pub store : ℕ → ℕ → ℤ → AccessMode → Bytes
store thread address value mode =
    codes "ACTION: " ++ place thread address mode ++ codes " store " ++ print_int value

abbrev pub real_text : Option ℤ → Bytes
real_text none = codes "?"
real_text (some value) = print_int value

abbrev pub swap_action : Option ℤ → Bytes
swap_action none = codes "FAILED"
swap_action (some _) = codes "ACTION"

abbrev pub compare_and_swap : ℕ → ℕ → ℤ → Option ℤ → ℤ → AccessMode → Bytes
compare_and_swap thread address expected real new mode =
    swap_action real
    ++ codes ": "
    ++ place thread address mode
    ++ codes " if ("
    ++ real_text real
    ++ codes ")=="
    ++ print_int expected
    ++ codes " store "
    ++ print_int new

abbrev pub fetch_and_increment : ℕ → ℕ → ℤ → AccessMode → Bool → Bytes
fetch_and_increment thread address increment mode failure =
    (if failure then codes "ACTION" else codes "FAILED")
    ++ codes ": "
    ++ place thread address mode
    ++ codes " +"
    ++ print_int increment

abbrev pub fence : ℕ → AccessMode → Bytes
fence thread mode =
    codes "ACTION: t" ++ print_size thread ++ codes ": " ++ to_string mode ++ codes " fence"

-- `StoreInstruction::str`
abbrev pub store_text : StoreInstruction → Bytes
store_text i = codes "#" ++ print_size i.address ++ codes "->" ++ print_int i.value

-- The line of a call.
unfoldable pub entry_text : Entry → Bytes
entry_text (Entry.load t a o v) = load t a o v
entry_text (Entry.store t a v o) = store t a v o
entry_text (Entry.compare_and_swap t a x real y o) = compare_and_swap t a x real y o
entry_text (Entry.fetch_and_increment t a k o failure) = fetch_and_increment t a k o failure
entry_text (Entry.fence t o) = fence t o
entry_text (Entry.tso_propagate t a v) =
    codes "ACTION: b"
    ++ print_size t
    ++ codes ": propagate ("
    ++ store_text (record { address = a; value = v })
    ++ codes ")"
entry_text (Entry.pso_propagate t a v) =
    codes "ACTION: b"
    ++ print_size t
    ++ codes "#"
    ++ print_size a
    ++ codes ": propagate ("
    ++ print_int v
    ++ codes ")"

-- What a log has written into the stream: its oldest call stands last in the list.
unfoldable pub written : LogLevel → Log → Bytes
written level [] = []
written level (entry ∷ log) = info level (entry_text entry) (written level log)

-- Below the level `info` the trace of the actions is not written.
pub written-below :
    (level : LogLevel) (log : Log) → at_least level LogLevel.info ≡ false → written level log ≡ []
unfolding written info
written-below level [] h = refl
written-below level (entry ∷ log) h = rw (h, written-below level log h)

-- A log that grows writes behind what it has written: nothing is taken back.
pub written-append :
    (level : LogLevel) (new old : Log)
    → (text : Bytes) × (written level (new ++ old) ≡ written level old ++ text)
unfolding written info
written-append level [] old = ([], sym (append-nil (written level old)))
written-append level (entry ∷ new) old =
    let (text, e) = written-append level new old in
    elim (Bool-cases (at_least level LogLevel.info)) [
      | inl h ↦ (
        text ++ (entry_text entry ++ codes "\n"),
        rw (h, e) (append_assoc (written level old) text (entry_text entry ++ codes "\n")),
      )
      | inr h ↦ (text, rw (h, e))
    ]

-- `Storage::str`, and `str` of the buffers
abbrev pub storage_text : Storage → Bytes
storage_text storage = spaced (map print_int storage)

abbrev pub buffer_text : Buffer → Bytes
buffer_text buffer = spaced (map store_text buffer)

abbrev pub address_buffer_text : AddressBuffer → Bytes
address_buffer_text buffer = spaced (map print_int buffer)

-- `ThreadBuffer::str`, from an address on
abbrev pub cell_texts : ℕ → ThreadBuffer → List Bytes
cell_texts address [] = []
cell_texts address (buffer ∷ buffers) =
    (codes "#" ++ print_size address ++ codes "=[" ++ address_buffer_text buffer ++ codes "]")
    ∷ cell_texts (suc address) buffers

abbrev pub thread_buffer_text : ThreadBuffer → Bytes
thread_buffer_text buffers = spaced (cell_texts 0 buffers)

-- The lines "b{}: {}" of the buffers, from a thread on.
abbrev pub buffer_lines {ℓ} : {A : Type ℓ} → (A → Bytes) → ℕ → List A → Bytes
buffer_lines text thread [] = []
buffer_lines text thread (buffer ∷ buffers) =
    codes "b"
    ++ print_size thread
    ++ codes ": "
    ++ text buffer
    ++ codes "\n"
    ++ buffer_lines text (suc thread) buffers

abbrev pub shared_line : Storage → Bytes
shared_line storage = codes "Shared storage: " ++ storage_text storage ++ codes "\n"

abbrev pub write_sc : Sc → Bytes
write_sc s = shared_line s.storage

abbrev pub write_tso : Tso → Bytes
write_tso s =
    shared_line s.storage
    ++ codes "Thread buffers:\n"
    ++ buffer_lines buffer_text 0 s.thread_buffers

abbrev pub write_pso : Pso → Bytes
write_pso s =
    shared_line s.storage
    ++ codes "Thread buffers:\n"
    ++ buffer_lines thread_buffer_text 0 s.thread_buffers
