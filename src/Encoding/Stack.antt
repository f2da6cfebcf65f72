-- ===== src/Encoding/Stack.antt =====
-- `struct Stack`: the fields whose Start tag is not written yet.
use serialrpc.Base.{ℕ, ◌==◌, if◌then◌else◌, List, [], ◌∷◌, ◌++◌, length, init}
use serialrpc.Io.{Result, ok, err, panic_out_of_space, panic_empty_stack}

abbrev pub max_nesting : ℕ
max_nesting = 128

-- `elems[0]` to `elems[size - 1]`.
abbrev pub Stack : Type 0
Stack = List ℕ

unfoldable pub push : ℕ → Stack → Result Stack
push e s = if length s == max_nesting then err panic_out_of_space else ok (s ++ e ∷ [])

unfoldable pub pop : Stack → Result Stack
pop s = if length s == 0 then err panic_empty_stack else ok (init s)

unfoldable pub clear : Stack → Stack
clear s = []
