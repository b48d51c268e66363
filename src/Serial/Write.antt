-- ===== src/Serial/Write.antt =====
-- `SerialWrite` and the transmit interrupt: every character goes out once, in order.
use mathlib.Core.List.{append-nil, append_assoc, map-append}
use demoscene.Prelude.{
  ℕ, ◌+◌, ◌≤◌, ◌<◌, ◌≡◌, refl, ap, subst, ◌∙◌, inl, inr, Bool, false, ◌&&◌, Gives, gives,
  Gives-bind, Gives-mono, List, [], ◌∷◌, ◌++◌, map, arith, ◌==◌, Bool-cases, ==_iff, if◌then◌else◌,
  length, length-append, not, has_bits,
}
use demoscene.Serial.{
  CharQueue, Effect, serdat, clear_irq, notify, Port, emit, frame, push_raw, pop_raw, push_char,
  newline, carriage_return, queue_len, write_byte, write_from, serial_write, serdatf_tbe, intf_tbe,
}
use demoscene.Serial.Queue.{
  IsValid, period, contents, push_raw-IsValid, push_raw-snoc, used-push_raw,
}

-- The words that a trace writes to `serdat`.
unfoldable pub sent : List Effect → List ℕ
sent [] = []
sent (serdat w ∷ es) = w ∷ sent es
sent (clear_irq m ∷ es) = sent es
sent (notify m ∷ es) = sent es

-- A newline goes out as CR LF's two characters, newline first.
unfoldable pub expand : List ℕ → List ℕ
expand [] = []
expand (c ∷ cs) = if c == newline then newline ∷ carriage_return ∷ expand cs else c ∷ expand cs

-- Everything that has gone out, and then what waits.
abbrev pub line : Port → List ℕ
line f = sent f.trace ++ map frame (contents f.sendq)

sent-append : (es fs : List Effect) → sent (es ++ fs) ≡ sent es ++ sent fs
unfolding sent
sent-append [] fs = refl
sent-append (serdat w ∷ es) fs = ap (λ ws. w ∷ ws) (sent-append es fs)
sent-append (clear_irq m ∷ es) fs = sent-append es fs
sent-append (notify m ∷ es) fs = sent-append es fs

-- What a call leaves that was to send `cs`.
pub record Sends (f : Port) (cs : List ℕ) (f' : Port) : Type 0 where
  pub valid : IsValid f'.sendq
  pub line_is : line f' ≡ line f ++ map frame cs
  pub used_le : f'.sendq.used ≤ f.sendq.used + length cs
  pub recvq_same : f'.recvq ≡ f.recvq
  pub nonblock_same : f'.nonblock ≡ f.nonblock

contents_empty : (q : CharQueue) → q.used ≡ 0 → contents q ≡ []
contents_empty q e = rw e

push_char_direct :
    (r c : ℕ) (f : Port)
    → IsValid f.sendq
    → f.sendq.used ≡ 0
    → Sends f (c ∷ []) (emit (serdat (frame c)) f)
unfolding emit sent
push_char_direct r c f v e = record {
  valid = v;
  line_is = rw (contents_empty f.sendq e) (simp (append-nil, sent-append));
  used_le = omega arith;
  recvq_same = refl;
  nonblock_same = refl;
}

push_char_queued :
    (c : ℕ) (f : Port)
    → IsValid f.sendq
    → f.sendq.used < period
    → Sends f (c ∷ []) (record f { sendq = push_raw c f.sendq })
push_char_queued c f v h = record {
  valid = push_raw-IsValid c v h;
  line_is = rw (push_raw-snoc c v h, map-append) (simp append_assoc);
  used_le = omega (arith, used-push_raw c v);
  recvq_same = refl;
  nonblock_same = refl;
}

full_false : (n : ℕ) (b : Bool) → n < period → ((n == queue_len) && not b) ≡ false
full_false n b h = ground arith

-- With fewer than 16 characters waiting `PushChar` neither sleeps nor loses its character.
push_char-Sends :
    (r c : ℕ) (f : Port)
    → IsValid f.sendq
    → f.sendq.used < period
    → Gives (Sends f (c ∷ [])) (push_char r c f)
unfolding push_char
push_char-Sends r c f v h = elim (Bool-cases ((f.sendq.used == 0) && has_bits r serdatf_tbe)) [
  | inl direct ↦ rw direct (gives (push_char_direct r c f v (ground arith)))
  | inr queued ↦
      rw (queued, full_false f.sendq.used f.nonblock h) (gives (push_char_queued c f v h))
]

Sends-trans : {f g h : Port} {xs ys : List ℕ} → Sends f xs g → Sends g ys h → Sends f (xs ++ ys) h
Sends-trans {xs} {ys} p q = record {
  valid = q.valid;
  line_is = q.line_is ∙ rw (p.line_is, map-append) (simp append_assoc);
  used_le = omega (arith, p.used_le, q.used_le, length-append xs ys);
  recvq_same = q.recvq_same ∙ p.recvq_same;
  nonblock_same = q.nonblock_same ∙ p.nonblock_same;
}

Sends-nil : {f : Port} → IsValid f.sendq → Sends f [] f
Sends-nil v = record {
  valid = v;
  line_is = simp append-nil;
  used_le = omega arith;
  recvq_same = refl;
  nonblock_same = refl;
}

module _ (reads : ℕ → ℕ) where
  write_byte-Sends :
      (k c : ℕ) (f : Port)
      → IsValid f.sendq
      → f.sendq.used + length (expand (c ∷ [])) ≤ period
      → Gives (λ r. Sends f (expand (c ∷ [])) r.1) (write_byte reads k c f)
  unfolding write_byte expand
  write_byte-Sends k c f v room = elim (Bool-cases (c == newline)) [
    | inl ends ↦
        let c_is : c ≡ newline = (==_iff c newline).0 ends in
        rw ends (
          Gives-bind (push_char-Sends (reads k) c f v (ground arith)) λ g s.
            Gives-bind
              (push_char-Sends (reads (k + 1)) carriage_return g s.valid
                (ground (arith, s.used_le)))
              λ h s'. gives (Sends-trans (subst (λ x. Sends f (x ∷ []) g) c_is s) s'))
    | inr other ↦
        rw other (Gives-bind (push_char-Sends (reads k) c f v (ground arith)) λ g s. gives s)
  ]

  expand-cons : (c : ℕ) (cs : List ℕ) → expand (c ∷ cs) ≡ expand (c ∷ []) ++ expand cs
  unfolding expand
  expand-cons c cs = ground arith

  length-expand_cons :
      (c : ℕ) (cs : List ℕ)
      → length (expand (c ∷ cs)) ≡ length (expand (c ∷ [])) + length (expand cs)
  length-expand_cons c cs = rw expand-cons (length-append (expand (c ∷ [])) (expand cs))

  write_from-Sends :
      (k : ℕ) (cs : List ℕ) (f : Port)
      → IsValid f.sendq
      → f.sendq.used + length (expand cs) ≤ period
      → Gives (Sends f (expand cs)) (write_from reads k cs f)
  unfolding write_from
  write_from-Sends k [] f v room = unfold expand in gives (Sends-nil v)
  write_from-Sends k (c ∷ cs) f v room =
      Gives-bind (write_byte-Sends k c f v (omega (arith, length-expand_cons c cs))) λ (k', g) s.
        Gives-mono
          (write_from-Sends k' cs g s.valid (omega (arith, s.used_le, length-expand_cons c cs)))
          λ h s'. rw expand-cons (Sends-trans s s')

  -- Given room for them among the 16 characters, `SerialWrite` reports every byte as written, does
  -- not sleep whatever the port's flags and the transmitter's state are, and behind what had gone
  -- out or waited before it adds exactly its bytes, with a carriage return after each newline.
  pub serial_write-Sends :
      (cs : List ℕ) (f : Port)
      → IsValid f.sendq
      → f.sendq.used + length (expand cs) ≤ period
      → Gives (λ r. (r.0 ≡ length cs) × Sends f (expand cs) r.1) (serial_write reads cs f)
  unfolding serial_write
  serial_write-Sends cs f v room =
      Gives-bind (write_from-Sends 0 cs f v room) λ g s. gives (refl, s)

-- The port after the interrupt, before it notifies anyone.
abbrev moved : Port → ℕ → Port
moved f c =
    emit (serdat (frame c)) (record (emit (clear_irq intf_tbe) f) { sendq = (pop_raw f.sendq).1 })
