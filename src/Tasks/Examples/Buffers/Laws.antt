-- ===== src/Tasks/Examples/Buffers/Laws.antt =====
-- The laws of the small FlatBuffers library.
use objectbox_go.Base.{
  ℕ, zero, suc, ◌+◌, ◌*◌, ◌%◌, ◌^◌, ◌<◌, ◌≤◌, ◌≡◌, ◌≢◌, refl, sym, ap, subst, ◌∙◌, ◌==◌, ==_refl,
  arith, ltb, true, false, List, [], ◌∷◌, ◌++◌, Option, none, some, if◌then◌else◌, Bool-cases, inl,
  inr, equal_or_not,
}
use mathlib.Core.List.{append-nil}
use objectbox_go.Base.Int.{ℤ, pos, negsuc}
use objectbox_go.FbUtils.Getters.{Table, when_set}
use objectbox_go.FbUtils.Buffers.{
  FlatBuffersLaws, finished, Field, uint64_field, int64_field, offset_field,
}
use objectbox_go.Tasks.Examples.Buffers.{
  Buffer, chars, text_entry, field_entry, entry, encode, find, collect, number, integer, place,
  slot_at, read_table, table_of, buffers,
}

-- Reading passes over the entries of other slots.
module _ (n : ℕ) where
  find-chars : (k : ℕ) (s rest : List ℕ) → k ≢ n → find n (chars k s ++ rest) ≡ find n rest
  unfolding find chars
  find-chars k [] rest h = refl
  find-chars k (c ∷ s) rest h = ground (arith, find-chars k s rest h)

  collect-chars : (k : ℕ) (s rest : List ℕ) → k ≢ n → collect n (chars k s ++ rest) ≡ collect n rest
  unfolding collect chars
  collect-chars k [] rest h = refl
  collect-chars k (c ∷ s) rest h = ground (arith, collect-chars k s rest h)

  collect-chars_own : (s rest : List ℕ) → collect n (chars n s ++ rest) ≡ s ++ collect n rest
  unfolding collect chars
  collect-chars_own [] rest = refl
  collect-chars_own (c ∷ s) rest = ground (arith, collect-chars_own s rest)

  text_other :
      (k : ℕ) (t : Option (List ℕ)) (rest : List ℕ)
      → k ≢ n
      → (find n (text_entry k t ++ rest) ≡ find n rest)
        × (collect n (text_entry k t ++ rest) ≡ collect n rest)
  unfolding find collect text_entry
  text_other k none rest h = (refl, refl)
  text_other k (some s) rest h =
      (ground (arith, find-chars k s rest h), ground (arith, collect-chars k s rest h))

  entry_other :
      (k : ℕ) (f : Option Field) (b : Buffer) (rest : List ℕ)
      → k ≢ n
      → (find n (entry k f b ++ rest) ≡ find n rest)
        × (collect n (entry k f b ++ rest) ≡ collect n rest)
  unfolding find collect entry field_entry
  entry_other k none b rest h = (refl, refl)
  entry_other k (some (uint64_field v)) b rest h = (ground arith, ground arith)
  entry_other k (some (int64_field (pos v))) b rest h = (ground arith, ground arith)
  entry_other k (some (int64_field (negsuc v))) b rest h = (ground arith, ground arith)
  entry_other k (some (offset_field o)) b rest h = text_other k (b.texts o) rest h

  -- What is read of a slot is in its own entry.
  encode_reads :
      (m : ℕ) (b : Buffer)
      → n < m
      → (find n (encode m b) ≡ find n (entry n (b.slots n) b ++ encode n b))
        × (collect n (encode m b) ≡ collect n (entry n (b.slots n) b ++ encode n b))
  unfolding encode
  encode_reads zero b h = absurd (omega arith)
  encode_reads (suc m) b h = elim (equal_or_not m n) [
    | inl e ↦
        subst
          (λ k.
            (find n (entry k (b.slots k) b ++ encode k b)
              ≡ find n (entry n (b.slots n) b ++ encode n b))
            × (collect n (entry k (b.slots k) b ++ encode k b)
                ≡ collect n (entry n (b.slots n) b ++ encode n b)))
          (sym e) (refl, refl)
    | inr d ↦
        (let (f, c) = entry_other m (b.slots m) b (encode m b) d in
          let (f', c') = encode_reads m b (omega arith) in (f ∙ f', c ∙ c'))
  ]

  collect_behind : (m : ℕ) (b : Buffer) → m ≤ n → collect n (encode m b) ≡ []
  unfolding encode collect
  collect_behind zero b h = refl
  collect_behind (suc m) b h =
      (entry_other m (b.slots m) b (encode m b) (omega arith)).1 ∙ collect_behind m b (omega arith)

abbrev view : Buffer → ℕ → Option Field
view b j = if ltb j b.count then b.slots j else none

abbrev placed : Field → ℕ → Buffer → Buffer
placed f n b = record b { last = some f; slots = λ j. if n == j then some f else b.slots j }

view-placed :
    (f : Field) (n : ℕ) (b : Buffer)
    → n < b.count
    → (j : ℕ) → view (placed f n b) j ≡ (if n == j then some f else view b j)
view-placed f n b h j = elim (Bool-cases (n == j)) [
  | inl e ↦
      let same : n ≡ j = ground arith in
      let below : ltb j b.count ≡ true = subst (λ k. ltb k b.count ≡ true) same (ground arith) in
      rw (e, below) refl
  | inr e ↦ rw e refl
]

-- A slot that is seen is below the number of slots, and is the one that was put there.
seen : (n : ℕ) (f : Field) (b : Buffer) → view b n ≡ some f → (n < b.count) × (b.slots n ≡ some f)
seen n f b h = (ground arith, ground arith)

slot_at-slot : (n : ℕ) → slot_at (4 + 2 * n) ≡ n
slot_at-slot n = omega arith

found_entry :
    (n : ℕ) (f : Field) (b : Buffer)
    → view b n ≡ some f
    → (find (slot_at (4 + 2 * n)) (encode b.count b) ≡ find n (field_entry n f b ++ encode n b))
      × (collect (slot_at (4 + 2 * n)) (encode b.count b)
          ≡ collect n (field_entry n f b ++ encode n b))
unfolding entry
found_entry n f b h =
    let (below, at_n) = seen n f b h in
    let (p, q) = encode_reads n b.count b below in
    rw (slot_at-slot n) (
      p ∙ ap (λ k. find n (entry n k b ++ encode n b)) at_n,
      q ∙ ap (λ k. collect n (entry n k b ++ encode n b)) at_n,
    )

integer_entry :
    (n : ℕ) (v default : ℤ) (b : Buffer) (rest : List ℕ)
    → integer (find n (field_entry n (int64_field v) b ++ rest)) default ≡ v
unfolding integer find field_entry
integer_entry n (pos v) default b rest = rw (==_refl n) refl
integer_entry n (negsuc v) default b rest = rw (==_refl n) refl

number_entry :
    (n v default : ℕ) (b : Buffer) (rest : List ℕ)
    → number (find n (field_entry n (uint64_field v) b ++ rest)) default ≡ v
unfolding number find field_entry
number_entry n v default b rest = rw (==_refl n) refl

text_collected :
    (n : ℕ) (s rest : List ℕ)
    → collect n (text_entry n (some s) ++ rest) ≡ collect n (chars n s ++ rest)
unfolding collect text_entry
text_collected n s rest = rw (==_refl n) refl

text_placed : (n p : ℕ) (s rest : List ℕ) → place (find n (text_entry n (some s) ++ rest)) p ≡ p
unfolding place find text_entry
text_placed n p s rest = rw (==_refl n) refl

text_found :
    (n o p : ℕ) (s : List ℕ) (b : Buffer)
    → b.texts o ≡ some s
    → (place (find n (field_entry n (offset_field o) b ++ encode n b)) p ≡ p)
      × (collect n (field_entry n (offset_field o) b ++ encode n b) ≡ s)
unfolding field_entry
text_found n o p s b h = rw h (
  text_placed n p s (encode n b),
  text_collected n s (encode n b)
      ∙ collect-chars_own n s (encode n b)
      ∙ ap (λ r. s ++ r) (collect_behind n n b (omega arith))
      ∙ append-nil s,
)

when_set_at :
    (table : Table) (slot o : ℕ) {A : Type 0} (read : ℕ → A)
    → table.offset slot ≡ o
    → o ≢ 0
    → o + table.position < 2 ^ 32
    → when_set table slot read ≡ some (read (o + table.position))
unfolding when_set
when_set_at table slot o read e n l =
    let small : (o + table.position) % 2 ^ 32 ≡ o + table.position = omega arith in
    let nonzero : (o == 0) ≡ false = ground arith in rw (e, nonzero, small) refl

read_text :
    (b : Buffer) (n o : ℕ) (s : List ℕ)
    → n < 2 ^ 14
    → view b n ≡ some (offset_field o)
    → b.texts o ≡ some s
    → when_set
        (read_table (encode b.count b))
        (4 + 2 * n)
        (read_table (encode b.count b)).byte_vector
      ≡ some s
unfolding read_table
read_text b n o s l h t =
    let table = read_table (encode b.count b) in
    let (p, q) = found_entry n (offset_field o) b h in
    let (p', q') = text_found n o (4 + 2 * n) s b t in
    let straight : 4 + 2 * n + 0 ≡ 4 + 2 * n = omega arith in
    when_set_at table (4 + 2 * n) (4 + 2 * n) table.byte_vector
      (ap (λ r. place r (4 + 2 * n)) p ∙ p') (omega arith) (omega arith)
    ∙ ap some (ap (λ a. table.byte_vector a) straight ∙ q ∙ q')

pub buffers_laws : FlatBuffersLaws buffers
unfolding buffers finished table_of read_table
buffers_laws = record {
  slot_count = λ b. b.count;
  fields = view;
  strings = λ b. b.texts;
  start_counts = λ n b. refl;
  start_strings = λ n b. refl;
  uint64_counts = λ n v b. refl;
  uint64_strings = λ n v b. refl;
  uint64_sets = λ n v b h l j. view-placed (uint64_field v) n b h j;
  int64_counts = λ n v b. refl;
  int64_strings = λ n v b. refl;
  int64_sets = λ n v b h l j. view-placed (int64_field v) n b h j;
  offset_counts = λ n v b. refl;
  offset_strings = λ n v b. refl;
  offset_sets = λ n v b h j. view-placed (offset_field v) n b h j;
  create_string_nonzero = λ s b h. λ e. absurd (omega (arith, e));
  create_string_strings =
      λ s b h. ap (λ t. if t then some s else b.texts (suc b.next)) (==_refl (suc b.next));
  finished_some = λ b e. cc;
  read_uint64 = λ b n v default l h.
      ap (λ r. number r default) (found_entry n (uint64_field v) b h).0
      ∙ number_entry n v default b (encode n b);
  read_int64 = λ b n v default l h.
      ap (λ r. integer r default) (found_entry n (int64_field v) b h).0
      ∙ integer_entry n v default b (encode n b);
  read_offset = read_text;
}
