-- ===== src/Wire.antt =====
-- `write_all` and `read_line`, which src/session/client.cpp and src/session/main.cpp both have.
-- What the kernel answers to the calls on a descriptor is a list of outcomes, one for each call.
pub mod Reading
pub mod Writing
use finn_os.Base.{
  ℕ, zero, suc, Bool, true, false, Option, none, some, List, [], ◌∷◌, ◌++◌, ◌==◌, leb, length,
  is_empty, take, drop, if◌then◌else◌,
}
use finn_os.Text.Raw.{Bytes}

-- One call `read(fd, &byte, 1)`; `interrupted` is a failure with `EINTR`.
pub data ReadOutcome : Type 0 where
  byte : ℕ → ReadOutcome
  end_of_file interrupted failed : ReadOutcome

abbrev pub line_limit : ℕ
line_limit = 4096

-- At the end of the stream an unfinished line counts, an empty one does not.
abbrev at_end : Bytes → Option Bytes
at_end line = if is_empty line then none else some line

-- The loop of `read_line` with the line so far; the line is `none` where the code returns false.
-- Past the last outcome the peer has closed, and every further call reports the end.
unfoldable pub read_onto : Bytes → List ReadOutcome → Option Bytes × List ReadOutcome
read_onto line [] = (at_end line, [])
read_onto line (ReadOutcome.byte c ∷ rest) =
    let more = read_onto (line ++ (c ∷ [])) rest in
    if c == b'\n'
    then (some line, rest)
    else if leb line_limit (length line)
    then (none, rest)
    else more
read_onto line (ReadOutcome.end_of_file ∷ rest) = (at_end line, rest)
read_onto line (ReadOutcome.interrupted ∷ rest) = read_onto line rest
read_onto line (ReadOutcome.failed ∷ rest) = (none, rest)

abbrev pub read_line : List ReadOutcome → Option Bytes × List ReadOutcome
read_line = read_onto []

-- One call `write(fd, data, size)`, with the count that it returns.
pub data WriteOutcome : Type 0 where
  wrote : ℕ → WriteOutcome
  interrupted failed : WriteOutcome

pub record Written : Type 0 where
  pub done : Bool
  pub sent : Bytes
  pub rest : List WriteOutcome

-- The loop of `write_all` on the text that is left. Past the last outcome a call fails.
unfoldable pub write_all : Bytes → List WriteOutcome → Written
write_all [] outcomes = record { done = true; sent = []; rest = outcomes }
write_all (c ∷ cs) [] = record { done = false; sent = []; rest = [] }
write_all (c ∷ cs) (WriteOutcome.wrote zero ∷ rest) = record {
  done = false;
  sent = [];
  rest = rest;
}
write_all (c ∷ cs) (WriteOutcome.wrote (suc n) ∷ rest) =
    let more = write_all (drop n cs) rest in record more { sent = c ∷ (take n cs ++ more.sent) }
write_all (c ∷ cs) (WriteOutcome.interrupted ∷ rest) = write_all (c ∷ cs) rest
write_all (c ∷ cs) (WriteOutcome.failed ∷ rest) = record { done = false; sent = []; rest = rest }
