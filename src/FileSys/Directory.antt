-- ===== src/FileSys/Directory.antt =====
-- `LookupFile` finds the first entry of a name.
use demoscene.Prelude.{
  ℕ, zero, suc, ◌+◌, ◌*◌, ◌≤◌, ◌≡◌, ◌≢◌, refl, ap₂, ◌∙◌, inl, inr, Bool, true, false, ◌&&◌, Option,
  none, some, List, [], ◌∷◌, arith, ◌==◌, Bool-cases, if◌then◌else◌, length, All,
}
use demoscene.FileSys.{
  File, reclen, start_of, size_of, name_of, same_name, lookup_from, max_entries, new_file,
  open_file, sector_size,
}

-- What a directory says of a file.
pub record Entry : Type 0 where
  pub name : List ℕ
  pub start : ℕ
  pub size : ℕ

abbrev pub same_bytes : List ℕ → List ℕ → Bool
same_bytes [] [] = true
same_bytes [] (y ∷ ys) = false
same_bytes (x ∷ xs) [] = false
same_bytes (x ∷ xs) (y ∷ ys) = let rest = same_bytes xs ys in (x == y) && rest

-- The first file of a name.
abbrev pub find_entry : List ℕ → List Entry → Option Entry
find_entry path [] = none
find_entry path (e ∷ es) =
    let rest = find_entry path es in if same_bytes path e.name then some e else rest

-- No byte of a name is zero, by which names end.
abbrev pub IsName : List ℕ → Type 0
IsName = All (λ c. c ≢ 0)

-- A name, with its end, at a place.
abbrev pub Named : (ℕ → ℕ) → ℕ → List ℕ → Type 0
Named dir a [] = dir a ≡ 0
Named dir a (c ∷ cs) = (dir a ≡ c) × Named dir (a + 1) cs

module _ (dir : ℕ → ℕ) where
  pub record IsEntry (fe : ℕ) (e : Entry) : Type 0 where
    pub named : Named dir (name_of fe) e.name
    pub is_name : IsName e.name
    pub start_is : start_of dir fe ≡ e.start
    pub size_is : size_of dir fe ≡ e.size

  -- From a place on the directory has these entries, and ends with a record of no length.
  pub data Entries : ℕ → List Entry → Type 0 where
    only :
        {fe : ℕ} {e : Entry}
        → IsEntry fe e
        → reclen dir (fe + reclen dir fe) ≡ 0
        → Entries fe (e ∷ [])
    then_more :
        {fe : ℕ} {e : Entry} {es : List Entry}
        → IsEntry fe e
        → reclen dir (fe + reclen dir fe) ≢ 0
        → Entries (fe + reclen dir fe) es
        → Entries fe (e ∷ es)

  same_name-Named :
      (path name : List ℕ) (a : ℕ)
      → IsName path
      → IsName name
      → Named dir a name
      → same_name path dir a ≡ same_bytes path name
  same_name-Named [] [] a p n h = ground arith
  same_name-Named [] (c ∷ cs) a p (nz, n) (e, h) = ground arith
  same_name-Named (x ∷ xs) [] a (xz, p) n h = ground arith
  same_name-Named (x ∷ xs) (c ∷ cs) a (xz, p) (nz, n) (e, h) =
      ap₂ (λ b r. b && r) (ground arith) (same_name-Named xs cs (a + 1) p n h)

  -- The place that is found is that of an entry.
  pub data FoundAt : Option Entry → Option ℕ → Type 0 where
    absent : FoundAt none none
    present : {fe : ℕ} {e : Entry} → IsEntry fe e → FoundAt (some e) (some fe)

  lookup_stop :
      (fuel fe : ℕ) (path : List ℕ)
      → same_name path dir (name_of fe) ≡ true
      → lookup_from (suc fuel) path dir fe ≡ some (some fe)
  unfolding lookup_from
  lookup_stop fuel fe path e = rw (lookup_from, e) refl

  lookup_end :
      (fuel fe : ℕ) (path : List ℕ)
      → same_name path dir (name_of fe) ≡ false
      → reclen dir (fe + reclen dir fe) ≡ 0
      → lookup_from (suc fuel) path dir fe ≡ some none
  unfolding lookup_from
  lookup_end fuel fe path e z =
      let last : (reclen dir (fe + reclen dir fe) == 0) ≡ true = ground arith in
      rw (lookup_from, e, last) refl

  lookup_next :
      (fuel fe : ℕ) (path : List ℕ)
      → same_name path dir (name_of fe) ≡ false
      → reclen dir (fe + reclen dir fe) ≢ 0
      → lookup_from (suc fuel) path dir fe ≡ lookup_from fuel path dir (fe + reclen dir fe)
  unfolding lookup_from
  lookup_next fuel fe path e nz =
      let more : (reclen dir (fe + reclen dir fe) == 0) ≡ false = ground arith in
      rw (lookup_from, e, more) refl

  lookup_from-FoundAt :
      (fuel : ℕ) {fe : ℕ} {es : List Entry} (path : List ℕ)
      → IsName path
      → Entries fe es
      → length es ≤ fuel
      → (r : Option ℕ) × (lookup_from fuel path dir fe ≡ some r) × FoundAt (find_entry path es) r
  lookup_from-FoundAt zero path p (only i z) le = absurd (omega arith)
  lookup_from-FoundAt zero path p (then_more i nz l) le = absurd (omega arith)
  lookup_from-FoundAt (suc fuel) path p (only {fe = fe} {e = e} i z) le =
      elim (Bool-cases (same_bytes path e.name)) [
        | inl eq ↦ (
          some fe,
          lookup_stop fuel fe path
              (same_name-Named path e.name (name_of fe) p i.is_name i.named ∙ eq),
          rw eq (present i),
        )
        | inr ne ↦ (
          none,
          lookup_end fuel fe path
              (same_name-Named path e.name (name_of fe) p i.is_name i.named ∙ ne) z,
          rw ne absent,
        )
      ]
  lookup_from-FoundAt (suc fuel) path p (then_more {fe = fe} {e = e} i nz l) le =
      elim (Bool-cases (same_bytes path e.name)) [
        | inl eq ↦ (
          some fe,
          lookup_stop fuel fe path
              (same_name-Named path e.name (name_of fe) p i.is_name i.named ∙ eq),
          rw eq (present i),
        )
        | inr ne ↦
            let (r, found, at) = lookup_from-FoundAt fuel path p l (omega arith) in
            (
              r,
              lookup_next fuel fe path
                    (same_name-Named path e.name (name_of fe) p i.is_name i.named ∙ ne) nz
                  ∙ found,
              rw ne at,
            )
      ]

-- The file of an entry, as `OpenFile` gives it.
abbrev pub file_of : Entry → File
file_of e = record { pos = 0; flags = 0; start = (e.start + 2) * sector_size; size = e.size }

abbrev pub opened : Option Entry → Option File
opened none = none
opened (some e) = some (file_of e)

-- `OpenFile` in a directory of at least one and at most 2 ^ 16 entries, whose names and whose path have
-- no zero byte: it gives the file of the first entry of that name, or NULL if there is none.
pub open_file-find_entry :
    (dir : ℕ → ℕ) (path : List ℕ) {es : List Entry}
    → IsName path
    → Entries dir 0 es
    → length es ≤ max_entries
    → open_file path dir ≡ some (opened (find_entry path es))
unfolding open_file
open_file-find_entry dir path {es} p h le =
    let (r, found, at) = lookup_from-FoundAt dir max_entries path p h le in
    rw found (go (find_entry path es) r at)
  where
    go :
        (o : Option Entry) (r : Option ℕ)
        → FoundAt dir o r
        → ◌≡◌ {A = Option (Option File)}
            (some (elim r [ none ↦ none | some fe ↦ some (new_file dir fe) ]))
            (some (opened o))
    go none none absent = refl
    go none (some fe) f = elim f [ ]
    go (some e) none f = elim f [ ]
    go (some e) (some fe) (present i) =
        ap₂
          (λ x y.
            some (some (record { pos = 0; flags = 0; start = (x + 2) * sector_size; size = y })))
          i.start_is i.size_is
