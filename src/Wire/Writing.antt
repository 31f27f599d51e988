-- ===== src/Wire/Writing.antt =====
-- `write_all` sends a prefix of the text, and the whole of it exactly when it returns true.
use finn_os.Base.{
  ℕ, zero, suc, ◌≤◌, ◌≡◌, ◌≢◌, ◌↔◌, refl, sym, ap, ◌∙◌, true, false, List, [], ◌∷◌, ◌++◌,
  append_assoc, arith, length, length-drop, take, drop, take-append-drop,
}
use finn_os.Text.Raw.{Bytes}
use finn_os.Wire.{WriteOutcome, Written, write_all}

-- `rest` is what was not sent.
record Accounts (text : Bytes) (w : Written) : Type 0 where
  unsent : Bytes
  splits : text ≡ w.sent ++ unsent
  all_sent : w.done ≡ true → unsent ≡ []
  some_left : w.done ≡ false → unsent ≢ []

write_all-Accounts :
    (text : Bytes) (outcomes : List WriteOutcome) → Accounts text (write_all text outcomes)
unfolding write_all
write_all-Accounts [] outcomes = record {
  unsent = [];
  splits = refl;
  all_sent = λ e. refl;
  some_left = λ e. cc;
}
write_all-Accounts (c ∷ cs) [] = record {
  unsent = c ∷ cs;
  splits = refl;
  all_sent = λ e. cc;
  some_left = λ e p. cc;
}
write_all-Accounts (c ∷ cs) (WriteOutcome.wrote zero ∷ rest) = record {
  unsent = c ∷ cs;
  splits = refl;
  all_sent = λ e. cc;
  some_left = λ e p. cc;
}
write_all-Accounts (c ∷ cs) (WriteOutcome.wrote (suc n) ∷ rest) =
    let more = write_all-Accounts (drop n cs) rest in
    record {
      unsent = more.unsent;
      splits = ap (◌∷◌ c) (
          sym (take-append-drop n cs)
          ∙ ap (◌++◌ (take n cs)) more.splits
          ∙ sym (append_assoc (take n cs) (write_all (drop n cs) rest).sent more.unsent));
      all_sent = more.all_sent;
      some_left = more.some_left;
    }
write_all-Accounts (c ∷ cs) (WriteOutcome.interrupted ∷ rest) = write_all-Accounts (c ∷ cs) rest
write_all-Accounts (c ∷ cs) (WriteOutcome.failed ∷ rest) = record {
  unsent = c ∷ cs;
  splits = refl;
  all_sent = λ e. cc;
  some_left = λ e p. cc;
}

-- However the kernel splits, interrupts or refuses the writes, the bytes sent are a prefix of the
-- text; nothing is left of it when `write_all` returns true, and something is when it returns
-- false.
pub write_all_lem :
    (text : Bytes) (outcomes : List WriteOutcome)
    → (unsent : Bytes) × (text ≡ (write_all text outcomes).sent ++ unsent)
      × (((write_all text outcomes).done ≡ true) ↔ (unsent ≡ []))
write_all_lem text outcomes =
    let a = write_all-Accounts text outcomes in
    (a.unsent, a.splits, (a.all_sent, λ e. ground (arith, a.some_left)))

-- The outcomes of a kernel that takes something at each write, or is interrupted.
abbrev pub Progresses : List WriteOutcome → Type 0
Progresses [] = Unit
Progresses (WriteOutcome.wrote n ∷ rest) = (n ≢ 0) × Progresses rest
Progresses (WriteOutcome.interrupted ∷ rest) = Progresses rest
Progresses (WriteOutcome.failed ∷ rest) = ⊥

abbrev pub writes : List WriteOutcome → ℕ
writes [] = 0
writes (WriteOutcome.wrote n ∷ rest) = suc (writes rest)
writes (WriteOutcome.interrupted ∷ rest) = writes rest
writes (WriteOutcome.failed ∷ rest) = writes rest

-- As many writes as the text has bytes are enough, when none fails and none takes nothing.
write_all-done :
    (text : Bytes) (outcomes : List WriteOutcome)
    → Progresses outcomes
    → length text ≤ writes outcomes
    → (write_all text outcomes).done ≡ true
unfolding write_all
write_all-done [] outcomes p h = refl
write_all-done (c ∷ cs) [] p h = absurd (omega arith)
write_all-done (c ∷ cs) (WriteOutcome.wrote zero ∷ rest) p h = absurd (p.0 refl)
write_all-done (c ∷ cs) (WriteOutcome.wrote (suc n) ∷ rest) p h =
    write_all-done (drop n cs) rest p.1 (omega (arith, length-drop n cs))
write_all-done (c ∷ cs) (WriteOutcome.interrupted ∷ rest) p h = write_all-done (c ∷ cs) rest p h
write_all-done (c ∷ cs) (WriteOutcome.failed ∷ rest) p h = absurd p
