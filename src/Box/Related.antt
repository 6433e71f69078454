-- ===== src/Box/Related.antt =====
-- RelationReplace of objectbox/box.go leaves exactly the given targets.
use objectbox_go.Base.{
  ℕ, zero, suc, ◌≡◌, refl, sym, ap, subst, ◌∙◌, ◌==◌, Bool, true, false, not, ◌&&◌, ◌||◌, List, [],
  ◌∷◌, some, Bool-cases, inl, inr, is_some, lookup, lookup-insert, lookup-delete, delete, contains,
  ok, pure, Preserves, >>=-eq-ok, ok-injective, arith,
}
use objectbox_go.Native.Calls.{c_call-eq-ok}
use objectbox_go.Transactions.{TxnApi}
use objectbox_go.Box.Api.{Box, put}
use objectbox_go.Box.{put_new_or_existing}
use objectbox_go.Box.Keeping.{Untouched, put_object-Preserves}
use objectbox_go.Box.Links.{
  Marks, mark_all, relation_put, relation_remove, put_if_new, target_id, link, link_targets,
  remove_all_of,
}

-- The documented behaviour of the C functions on one relation, for `related`, which says whether a
-- source and a target are related: rel_get_ids returns the targets of a source, and rel_put and
-- rel_remove add and take away one pair if they report success. Puts of targets change no pair.
pub record RelationLaws {W O T S : Type 0} (tx : TxnApi W) (box : Box W O S) (target : Box W T S)
    (relation : ℕ) : Type 0 where
  pub related : W → ℕ → ℕ → Bool
  pub puts : Untouched tx target related
  pub source_id : (o : O) (w : W) → related (box.binding.get_id o w).1 ≡ related w
  pub get_ids :
      (source : ℕ) (w : W) → related (target.core.rel_get_ids relation source w).1 ≡ related w
  pub ids_are :
      (source array x : ℕ) (w : W)
      → (target.core.rel_get_ids relation source w).0 ≡ some array
      → contains (target.core.id_array_items array (target.core.rel_get_ids relation source w).1) x
        ≡ related w source x
  pub free_ids : (array : ℕ) (w : W) → related (target.core.id_array_free array w) ≡ related w
  pub put_adds :
      (source id : ℕ) (w : W)
      → (box.core.rel_put relation source id w).0 ≡ 0
      → (s x : ℕ)
      → related (box.core.rel_put relation source id w).1 s x
        ≡ (related w s x || (source == s && id == x))
  pub remove_takes :
      (source id : ℕ) (w : W)
      → (box.core.rel_remove relation source id w).0 ≡ 0
      → (s x : ℕ)
      → related (box.core.rel_remove relation source id w).1 s x
        ≡ (related w s x && not (source == s && id == x))

pub mark_all-contains : (ids : List ℕ) (x : ℕ) → is_some (lookup x (mark_all ids)) ≡ contains ids x
unfolding mark_all
mark_all-contains [] x = refl
mark_all-contains (id ∷ ids) x =
    ground (arith, lookup-insert id x true (mark_all ids), mark_all-contains ids x)

module _ {W O T S : Type 0} (tx : TxnApi W) (box : Box W O S) (target : Box W T S) (relation : ℕ)
    (laws : RelationLaws tx box target relation) where
  open tx use {errors}
  open laws use {related}

  target_id_keeps : (object : T) → Preserves related (target_id tx box target relation object)
  unfolding target_id put_new_or_existing
  target_id_keeps object w a h =
      let (id, _, step, h') = >>=-eq-ok (target.binding.get_id object) _ w h in
      ap (λ r. related r.1) step ∙ by id _ h' ∙ laws.puts.get_id object w
    where
      by :
          (id : ℕ) (w' : W)
          → (put_if_new tx box target relation object id w').0 ≡ ok a
          → related (put_if_new tx box target relation object id w').1 ≡ related w'
      by zero w' e = put_object-Preserves tx target related laws.puts object false put w' a e
      by (suc id) w' e = refl

  relation_put_adds :
      (source id : ℕ) (w : W) {u : Unit {0}}
      → (relation_put tx box target relation source id w).0 ≡ ok u
      → (s x : ℕ)
      → related (relation_put tx box target relation source id w).1 s x
        ≡ (related w s x || (source == s && id == x))
  unfolding relation_put
  relation_put_adds source id w h s x =
      let (rc, e) = c_call-eq-ok errors (box.core.rel_put relation source id) w h in
      ap (λ w'. related w' s x) e ∙ laws.put_adds source id w rc s x

  relation_remove_takes :
      (source id : ℕ) (w : W) {u : Unit {0}}
      → (relation_remove tx box target relation source id w).0 ≡ ok u
      → (s x : ℕ)
      → related (relation_remove tx box target relation source id w).1 s x
        ≡ (related w s x && not (source == s && id == x))
  unfolding relation_remove
  relation_remove_takes source id w h s x =
      let (rc, e) = c_call-eq-ok errors (box.core.rel_remove relation source id) w h in
      ap (λ w'. related w' s x) e ∙ laws.remove_takes source id w rc s x

  pub remove_all_of_takes :
      (source : ℕ) (ids : List ℕ) (w : W) {u : Unit {0}}
      → (remove_all_of tx box target relation source ids w).0 ≡ ok u
      → (s x : ℕ)
      → related (remove_all_of tx box target relation source ids w).1 s x
        ≡ (related w s x && not (source == s && contains ids x))
  unfolding remove_all_of
  remove_all_of_takes source [] w h s x = ground arith
  remove_all_of_takes source (id ∷ ids) w h s x =
      let (_, e, step, h') = >>=-eq-ok (relation_remove tx box target relation source id) _ w h in
      ap (λ r. related r.1 s x) step
      ∙ ground
          (arith, remove_all_of_takes source ids _ h' s x, relation_remove_takes source id w e s x)

  -- Marks of a source are among the targets that it is related to.
  abbrev pub Marked : ℕ → Marks → W → Type 0
  Marked source marks w = (x : ℕ) → is_some (lookup x marks) ≡ true → related w source x ≡ true

  -- What linking the targets `ids` has done, from one world and marks to the next.
  pub record Linked (source : ℕ) (ids : List ℕ) (marks marks' : Marks) (w w' : W) : Type 0 where
    pub pairs : (s x : ℕ) → related w' s x ≡ (related w s x || (source == s && contains ids x))
    pub unmarked :
        (x : ℕ) → is_some (lookup x marks') ≡ (is_some (lookup x marks) && not (contains ids x))

  kept-Linked :
      (source id : ℕ) (marks : Marks) (w : W)
      → Marked source marks w
      → is_some (lookup id marks) ≡ true
      → Linked source (id ∷ []) marks (delete id marks) w w
  kept-Linked source id marks w marked old = record {
    pairs = λ s x. ground (arith, marked id old);
    unmarked = λ x. ground (arith, lookup-delete id x marks);
  }

  link-Linked :
      (source id : ℕ) (marks marks' : Marks) (w : W)
      → Marked source marks w
      → (link tx box target relation source id marks w).0 ≡ ok marks'
      → Linked source (id ∷ []) marks marks' w (link tx box target relation source id marks w).1
  unfolding link
  link-Linked source id marks marks' w marked = elim (Bool-cases (is_some (lookup id marks))) [
    | inl old ↦ rw old (λ h.
        subst (λ m. Linked source (id ∷ []) marks m w w) (ok-injective h)
          (kept-Linked source id marks w marked old))
    | inr new ↦ rw new (λ h.
        let (_, e, step, h') =
          >>=-eq-ok (relation_put tx box target relation source id) (λ _. pure marks) w h in
        let adds = relation_put_adds source id w e in
        record {
          pairs = λ s x. ap (λ r. related r.1 s x) step ∙ ground (arith, adds s x);
          unmarked =
              λ x. ap (λ m. is_some (lookup x m)) (sym (ok-injective h')) ∙ ground (arith, new);
        })
  ]

  -- Each of the identifiers is what finding or putting its object returned at some moment.
  pub data Resolved : List T → List ℕ → Type 0 where
    none_left : Resolved [] []
    resolved :
        (object : T) (id : ℕ) (w : W) {objects : List T} {ids : List ℕ}
        → (target_id tx box target relation object w).0 ≡ ok id
        → Resolved objects ids
        → Resolved (object ∷ objects) (id ∷ ids)

  Linked-cons :
      (source id : ℕ) (ids : List ℕ) (m0 m1 m2 : Marks) (w0 w1 w2 : W)
      → Linked source (id ∷ []) m0 m1 w0 w1
      → Linked source ids m1 m2 w1 w2
      → Linked source (id ∷ ids) m0 m2 w0 w2
  Linked-cons source id ids m0 m1 m2 w0 w1 w2 a b = record {
    pairs = λ s x. ground (arith, a.pairs s x, b.pairs s x);
    unmarked = λ x. ground (arith, a.unmarked x, b.unmarked x);
  }

  Linked-Marked :
      (source id : ℕ) (m0 m1 : Marks) (w0 w1 : W)
      → Linked source (id ∷ []) m0 m1 w0 w1
      → Marked source m0 w0
      → Marked source m1 w1
  Linked-Marked source id m0 m1 w0 w1 a marked x h =
      ground (arith, a.pairs source x, a.unmarked x, marked x)

  pub link_targets-Linked :
      (source : ℕ) (objects : List T) (marks marks' : Marks) (w : W)
      → Marked source marks w
      → (link_targets tx box target relation source objects marks w).0 ≡ ok marks'
      → (ids : List ℕ) × Resolved objects ids
        × Linked source ids marks marks' w
            (link_targets tx box target relation source objects marks w).1
  unfolding link_targets
  link_targets-Linked source [] marks marks' w marked h = (
    [],
    none_left,
    subst (λ m. Linked source [] marks m w w) (ok-injective h)
        (record { pairs = λ s x. ground arith; unmarked = λ x. ground arith }),
  )
  link_targets-Linked source (object ∷ objects) marks marks' w marked h =
      let (id, e, s1, h1) = >>=-eq-ok (target_id tx box target relation object) _ w h in
      let w1 = (target_id tx box target relation object w).1 in
      let kept = target_id_keeps object w id e in
      let marked1 : Marked source marks w1 = λ x m. ap (λ r. r source x) kept ∙ marked x m in
      let (m1, e2, s2, h2) = >>=-eq-ok (link tx box target relation source id marks) _ w1 h1 in
      let w2 = (link tx box target relation source id marks w1).1 in
      let one = link-Linked source id marks m1 w1 marked1 e2 in
      let (ids, found, rest) =
        link_targets-Linked source objects m1 marks' w2
          (Linked-Marked source id marks m1 w1 w2 one marked1) h2 in
      let w3 = (link_targets tx box target relation source objects m1 w2).1 in
      let both = Linked-cons source id ids marks m1 marks' w1 w2 w3 one rest in
      (
        id ∷ ids,
        resolved object id w e found,
        record {
          pairs = λ s x.
              ap (λ r. related r.1 s x) (s1 ∙ s2)
              ∙ both.pairs s x
              ∙ ap (λ r. r s x || (source == s && contains (id ∷ ids) x)) kept;
          unmarked = both.unmarked;
        },
      )
