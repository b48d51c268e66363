-- ===== src/Serial/Read.antt =====
-- The receive interrupt and `SerialRead`.
use demoscene.Prelude.{
  ℕ, zero, suc, ◌%◌, ◌^◌, ◌<◌, ◌≡◌, refl, ap, ◌∙◌, inl, inr, true, none, some, List, [], ◌∷◌, ◌++◌,
  arith, ◌==◌, Bool-cases, Gives, gives, Gives-bind, if◌then◌else◌, has_bits,
}
use demoscene.Serial.{
  Port, popped, emit, wake, pop_raw, pop_char, recv_int_handler, newline, serial_read, serdatf_rbf,
}
use demoscene.Serial.Queue.{
  IsValid, period, contents, push_raw-IsValid, push_raw-snoc, pop_raw-IsValid, pop_raw_refines,
  uncons,
}

-- What a read of `n` bytes finds where the characters `cs` wait and the call does not sleep: it
-- stops behind a newline, and -1 is stored as 255 for each character that is missing.
unfoldable pub read_line : ℕ → List ℕ → List ℕ × List ℕ
read_line zero cs = ([], cs)
read_line (suc n) [] = let (bytes, rest) = read_line n [] in (255 ∷ bytes, rest)
read_line (suc n) (c ∷ cs) =
    let (bytes, rest) = read_line n cs in if c == newline then (c ∷ [], cs) else (c ∷ bytes, rest)

pub record Reads (n : ℕ) (f : Port) (r : List ℕ × Port) : Type 0 where
  pub bytes : r.0 ≡ (read_line n (contents f.recvq)).0
  pub rest : contents r.1.recvq ≡ (read_line n (contents f.recvq)).1
  pub valid : IsValid r.1.recvq
  pub sendq_same : r.1.sendq ≡ f.sendq
  pub trace_same : r.1.trace ≡ f.trace

-- The port without its oldest received character.
abbrev taken : Port → Port
taken f = record f { recvq = (pop_raw f.recvq).1 }

pop_char_empty :
    (f : Port)
    → IsValid f.recvq
    → f.nonblock ≡ true
    → contents f.recvq ≡ []
    → (pop_char f ≡ popped none (taken f)) × (contents (taken f).recvq ≡ [])
unfolding pop_char uncons
pop_char_empty f v nb e = ground (arith, pop_raw_refines v)

pop_char_cons :
    (f : Port) (c : ℕ) (cs : List ℕ)
    → IsValid f.recvq
    → contents f.recvq ≡ c ∷ cs
    → (pop_char f ≡ popped (some c) (taken f)) × (contents (taken f).recvq ≡ cs)
unfolding pop_char uncons
pop_char_cons f c cs v e = ground (arith, pop_raw_refines v)

module _ (n : ℕ) (f : Port) (v : IsValid f.recvq) (nb : f.nonblock ≡ true)
    (rest : Gives (Reads n (taken f)) (serial_read n (taken f))) where
  read_empty : contents f.recvq ≡ [] → Gives (Reads (suc n) f) (serial_read (suc n) f)
  unfolding serial_read read_line
  read_empty e =
      let (popped_is, left) = pop_char_empty f v nb e in
      rw (popped_is, serial_read)
        (Gives-bind rest λ (bytes, g) r. gives (record {
          bytes = rw e (ap (λ bs. 255 ∷ bs) (r.bytes ∙ ap (λ cs. (read_line n cs).0) left));
          rest = r.rest ∙ rw left (rw e refl);
          valid = r.valid;
          sendq_same = r.sendq_same;
          trace_same = r.trace_same;
        }))

  read_cons :
      (c : ℕ) (cs : List ℕ)
      → contents f.recvq ≡ c ∷ cs
      → Gives (Reads (suc n) f) (serial_read (suc n) f)
  unfolding serial_read read_line
  read_cons c cs e =
      let (popped_is, left) = pop_char_cons f c cs v e in
      elim (Bool-cases (c == newline)) [
        | inl ends ↦
            rw (popped_is, serial_read, ends)
              (gives (record {
                bytes = rw (e, ends);
                rest = rw (e, ends) left;
                valid = pop_raw-IsValid v;
                sendq_same = refl;
                trace_same = refl;
              }))
        | inr more ↦
            rw (popped_is, serial_read, more)
              (Gives-bind rest λ (bytes, g) r. gives (record {
                bytes =
                    rw (e, more) (ap (λ bs. c ∷ bs) (r.bytes ∙ ap (λ xs. (read_line n xs).0) left));
                rest = rw (e, more) (r.rest ∙ ap (λ xs. (read_line n xs).1) left);
                valid = r.valid;
                sendq_same = r.sendq_same;
                trace_same = r.trace_same;
              }))
      ]

  step : (cs : List ℕ) → contents f.recvq ≡ cs → Gives (Reads (suc n) f) (serial_read (suc n) f)
  step [] e = read_empty e
  step (c ∷ cs) e = read_cons c cs e

-- A port opened with O_NONBLOCK, while at most 16 characters wait: `SerialRead` never sleeps, and
-- gives what `read_line` says.
pub serial_read-Reads :
    (n : ℕ) (f : Port) → IsValid f.recvq → f.nonblock ≡ true → Gives (Reads n f) (serial_read n f)
unfolding serial_read read_line
serial_read-Reads zero f v nb =
    gives (record { bytes = refl; rest = refl; valid = v; sendq_same = refl; trace_same = refl })
serial_read-Reads (suc n) f v nb =
    step n f v nb (serial_read-Reads n (taken f) (pop_raw-IsValid v) nb) (contents f.recvq) refl

-- The receive interrupt with room among the 16 characters: the low byte of the register joins the
-- waiting characters exactly when the register says that it holds one, and nothing else changes
-- but the trace.
pub recv_int_handler-contents :
    (r : ℕ) (f : Port)
    → IsValid f.recvq
    → f.recvq.used < period
    → (contents (recv_int_handler r f).recvq ≡ (
        if has_bits r serdatf_rbf then contents f.recvq ++ (r % 2 ^ 8 ∷ []) else contents f.recvq))
      × IsValid (recv_int_handler r f).recvq
      × ((recv_int_handler r f).sendq ≡ f.sendq)
unfolding recv_int_handler emit wake
recv_int_handler-contents r f v h = elim (Bool-cases (has_bits r serdatf_rbf)) [
  | inl got ↦ elim (Bool-cases f.nonblock) [
    | inl nb ↦ rw (got, nb) (push_raw-snoc _ v h, push_raw-IsValid _ v h, refl)
    | inr nb ↦ rw (got, nb) (push_raw-snoc _ v h, push_raw-IsValid _ v h, refl)
  ]
  | inr got ↦ rw got (refl, v, refl)
]
