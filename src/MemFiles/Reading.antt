-- ===== src/MemFiles/Reading.antt =====
-- `MemRead` reads the concatenation of the blocks.
use demoscene.Prelude.{
  ℕ, zero, suc, ◌+◌, ◌-◌, ◌<◌, ◌≤◌, ◌^◌, ◌%◌, ◌≡◌, refl, sym, ap, ap₂, ◌∙◌, inl, inr, List, [], ◌∷◌,
  ◌++◌, arith, ltb, ◌==◌, ==_iff, Bool-cases, length, length-append, take, drop,
}
use mathlib.Core.List.{append-nil}
use demoscene.MemFiles.{Block, File, bytes, to_do, read_blocks, mem_read, total}

module _ (mem : ℕ → ℕ) where
  -- What the file holds.
  abbrev pub content : List Block → List ℕ
  content [] = []
  content (b ∷ bs) = bytes mem b.addr b.size ++ content bs

  drop-bytes :
      (m k n a : ℕ) (rest : List ℕ)
      → m + k ≡ n
      → drop m (bytes mem a n ++ rest) ≡ bytes mem (a + m) k ++ rest
  drop-bytes zero k n a rest e = ap₂ (λ x y. bytes mem x y ++ rest) (omega arith) (omega arith)
  drop-bytes (suc m) k zero a rest e = absurd (omega arith)
  drop-bytes (suc m) k (suc n) a rest e =
      drop-bytes m k n (suc a) rest (omega arith) ∙ ap (λ x. bytes mem x k ++ rest) (omega arith)

  drop_past-bytes :
      (n k p a : ℕ) (rest : List ℕ) → p ≡ n + k → drop p (bytes mem a n ++ rest) ≡ drop k rest
  drop_past-bytes zero k p a rest e = ap (λ x. drop x rest) (omega arith)
  drop_past-bytes (suc n) k zero a rest e = absurd (omega arith)
  drop_past-bytes (suc n) k (suc p) a rest e = drop_past-bytes n k p (suc a) rest (omega arith)

  take-bytes : (m n a : ℕ) (rest : List ℕ) → m ≤ n → take m (bytes mem a n ++ rest) ≡ bytes mem a m
  take-bytes zero n a rest le = refl
  take-bytes (suc m) zero a rest le = absurd (omega arith)
  take-bytes (suc m) (suc n) a rest le =
      ap (λ l. mem a ∷ l) (take-bytes m n (suc a) rest (omega arith))

  take_past-bytes :
      (m k n a : ℕ) (rest : List ℕ)
      → n ≡ m + k
      → take n (bytes mem a m ++ rest) ≡ bytes mem a m ++ take k rest
  take_past-bytes zero k n a rest e = ap (λ x. take x rest) (omega arith)
  take_past-bytes (suc m) k zero a rest e = absurd (omega arith)
  take_past-bytes (suc m) k (suc n) a rest e =
      ap (λ l. mem a ∷ l) (take_past-bytes m k n (suc a) rest (omega arith))

  take-none : (n : ℕ) → take {A = ℕ} n [] ≡ []
  take-none zero = refl
  take-none (suc n) = refl

  drop-none : (n : ℕ) → drop {A = ℕ} n [] ≡ []
  drop-none zero = refl
  drop-none (suc n) = refl

  read_blocks-zero : (bs : List Block) (o : ℕ) → read_blocks mem bs o 0 ≡ []
  unfolding read_blocks
  read_blocks-zero [] o = refl
  read_blocks-zero (b ∷ bs) o = refl

  -- In one block: the part of the block behind the offset, and what is left to read of the others.
  inside :
      (b : Block) (bs : List Block) (o n : ℕ)
      → total (b ∷ bs) < 2 ^ 32
      → o + n < 2 ^ 32
      → o ≤ b.size
      → ((p m : ℕ) → p + m < 2 ^ 32 → read_blocks mem bs p m ≡ take m (drop p (content bs)))
      → let todo = to_do o n b.size in
        bytes mem (b.addr + o) todo
          ++ read_blocks mem bs ((o + todo + 2 ^ 32 - b.size) % 2 ^ 32) (n - todo)
        ≡ take n (drop o (content (b ∷ bs)))
  inside b bs o n fits room le rest = elim (Bool-cases (ltb b.size ((o + n) % 2 ^ 32))) [
    | inl over ↦ rw over (
        ap₂ (λ x y. bytes mem (b.addr + o) (b.size - o) ++ read_blocks mem bs x y)
          (start_of_next (omega arith)) refl
        ∙ ap (λ l. bytes mem (b.addr + o) (b.size - o) ++ l)
            (rest 0 (n - (b.size - o)) (omega arith))
        ∙ sym (
            ap (take n) behind
            ∙ take_past-bytes (b.size - o) (n - (b.size - o)) n (b.addr + o) (content bs)
                (ground arith)))
    | inr under ↦ rw under (
        ap (λ l. bytes mem (b.addr + o) n ++ l)
          (ap (read_blocks mem bs _) (omega arith) ∙ read_blocks-zero bs _)
        ∙ append-nil _
        ∙ sym (
            ap (take n) behind
            ∙ take-bytes n (b.size - o) (b.addr + o) (content bs) (ground arith)))
  ]
    where
      behind : drop o (content (b ∷ bs)) ≡ bytes mem (b.addr + o) (b.size - o) ++ content bs
      behind = drop-bytes o (b.size - o) b.size b.addr (content bs) (omega arith)

      start_of_next : b.size < 2 ^ 32 → (o + (b.size - o) + 2 ^ 32 - b.size) % 2 ^ 32 ≡ 0
      start_of_next h = omega arith

  pub read_blocks_lem :
      (bs : List Block) (o n : ℕ)
      → total bs < 2 ^ 32
      → o + n < 2 ^ 32
      → read_blocks mem bs o n ≡ take n (drop o (content bs))
  unfolding read_blocks
  read_blocks_lem [] o n fits room = sym (ap (take n) (drop-none o) ∙ take-none n)
  read_blocks_lem (b ∷ bs) o n fits room = elim (Bool-cases (n == 0)) [
    | inl none_left ↦
        rw none_left (ap (λ k. take k (drop o (content (b ∷ bs)))) (sym ((==_iff n 0).0 none_left)))
    | inr more ↦ elim (Bool-cases (ltb b.size o)) [
      | inl beyond ↦
          rw (more, beyond)
            (read_blocks_lem bs (o - b.size) n (omega arith) (omega arith)
              ∙ ap (take n)
                  (sym (drop_past-bytes b.size (o - b.size) o b.addr (content bs) (ground arith))))
      | inr within ↦
          rw (more, within)
            (inside b bs o n fits room (ground arith)
              (λ p m r. read_blocks_lem bs p m (omega arith) r))
    ]
  ]

  -- What a read of `n` bytes comes to: the next `n` bytes of the file or all that are left, and the
  -- file behind them.
  pub record Reads (n : ℕ) (f : File) (r : List ℕ × File) : Type 0 where
    pub got : r.0 ≡ take n (drop f.offset (content f.blocks))
    pub left : drop r.1.offset (content f.blocks) ≡ drop n (drop f.offset (content f.blocks))
    pub same : r.1.blocks ≡ f.blocks
    pub bound : r.1.offset ≤ total f.blocks

  drop-drop : (m n : ℕ) (xs : List ℕ) → drop n (drop m xs) ≡ drop (m + n) xs
  drop-drop zero n xs = ap (λ k. drop k xs) (omega arith)
  drop-drop (suc m) n [] = drop-none n ∙ sym (drop-none (suc m + n))
  drop-drop (suc m) n (x ∷ xs) =
      drop-drop m n xs ∙ ap (λ k. drop k (x ∷ xs)) {x = suc (m + n)} (omega arith)

  drop-length-take : (n : ℕ) (xs : List ℕ) → drop (length (take n xs)) xs ≡ drop n xs
  drop-length-take zero xs = refl
  drop-length-take (suc n) [] = refl
  drop-length-take (suc n) (x ∷ xs) = drop-length-take n xs

  length-take-drop :
      (o n : ℕ) (xs : List ℕ) → o ≤ length xs → o + length (take n (drop o xs)) ≤ length xs
  length-take-drop zero zero xs le = omega arith
  length-take-drop zero (suc n) [] le = omega arith
  length-take-drop zero (suc n) (x ∷ xs) le =
      omega (arith, length-take-drop zero n xs (omega arith))
  length-take-drop (suc o) n [] le = absurd (omega arith)
  length-take-drop (suc o) n (x ∷ xs) le = omega (arith, length-take-drop o n xs (omega arith))

  length-bytes : (a n : ℕ) → length (bytes mem a n) ≡ n
  length-bytes a zero = refl
  length-bytes a (suc n) = ap suc (length-bytes (suc a) n)

  length-content : (bs : List Block) → length (content bs) ≡ total bs
  length-content [] = refl
  length-content (b ∷ bs) =
      length-append (bytes mem b.addr b.size) (content bs)
      ∙ ap₂ (λ x y. x + y) (length-bytes b.addr b.size) (length-content bs)

  -- `MemRead` of `n` bytes, where the blocks have fewer than 2 ^ 32 bytes, the offset is in the file
  -- and the sum of the offset and `n` does not overflow: it gives the next `n` bytes of the blocks put
  -- together, or all that are left, across the borders of the blocks, and leaves the file behind
  -- them, within its bounds.
  pub mem_read-Reads :
      (n : ℕ) (f : File)
      → total f.blocks < 2 ^ 32
      → f.offset ≤ total f.blocks
      → f.offset + n < 2 ^ 32
      → Reads n f (mem_read mem n f)
  unfolding mem_read
  mem_read-Reads n f fits inside room =
      let xs = content f.blocks in
      let e = read_blocks_lem f.blocks f.offset n fits room in
      let all = length-content f.blocks in
      let end_of = length-take-drop f.offset n xs (omega arith) in
      rw e (record {
        got = refl;
        left =
            ap (λ k. drop k xs) (place xs (omega (arith, end_of, all)))
            ∙ sym (drop-drop f.offset (length (take n (drop f.offset xs))) xs)
            ∙ drop-length-take n (drop f.offset xs);
        same = refl;
        bound = omega (arith, end_of, all);
      })
    where
      place :
          (xs : List ℕ)
          → f.offset + length (take n (drop f.offset xs)) < 2 ^ 32
          → (f.offset + length (take n (drop f.offset xs))) % 2 ^ 32
            ≡ f.offset + length (take n (drop f.offset xs))
      place xs h = omega arith
