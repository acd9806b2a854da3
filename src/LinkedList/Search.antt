-- ===== src/LinkedList/Search.antt =====
-- What `search` of atomic_linkedlist.hpp finds and unlinks.
use cpp_lockfree_structures.Prelude.{
  ◌<◌, ◌≤◌, ◌≡◌, refl, ap, Bool, true, false, List, [], ◌∷◌, ◌++◌, inl, inr, if◌then◌else◌, arith,
  Bool-cases, is_nil,
}
use cpp_lockfree_structures.LinkedList.{Node, passed, search_loop, find_loop, mark, empty_loop}
use cpp_lockfree_structures.Outcomes.{spurious}

-- The items that are in the list: those of the unmarked nodes.
unfoldable pub live {ℓ} : {A : Type ℓ} → List (Node A) → List A
live [] = []
live (c ∷ rest) = let later = live rest in if c.marked then later else c.data_ ∷ later

module _ {ℓ} {A : Type ℓ} where
  pub live-append :
      (nodes : List (Node A)) (x : A)
      → live (nodes ++ (record { data_ = x; marked = false }) ∷ []) ≡ live nodes ++ x ∷ []
  unfolding live
  live-append [] x = refl
  live-append (c ∷ rest) x = elim (Bool-cases c.marked) [
    | inl e ↦ rw e (live-append rest x)
    | inr e ↦ rw e (ap (λ l. c.data_ ∷ l) (live-append rest x))
  ]

  module _ (same : A → A → Bool) where
    -- The first item that is the same is there; and the items without it.
    unfoldable pub member : A → List A → Bool
    member x [] = false
    member x (y ∷ ys) = let later = member x ys in if same y x then true else later

    unfoldable pub remove_first : A → List A → List A
    remove_first x [] = []
    remove_first x (y ∷ ys) = let later = remove_first x ys in if same y x then ys else y ∷ later

    pub find_loop-live :
        (x : A) (nodes : List (Node A)) → find_loop same x nodes ≡ member x (live nodes)
    unfolding find_loop live member
    find_loop-live x [] = refl
    find_loop-live x (c ∷ rest) = ground (arith, find_loop-live x rest)

    pub search-live :
        (linked : Bool) (weak : List Bool) (x : A) (nodes : List (Node A))
        → live (search_loop same linked weak x nodes).nodes ≡ live nodes
    unfolding live search_loop passed
    search-live linked weak x [] = refl
    search-live linked [] x (c ∷ rest) =
        ground (arith, search-live true [] x rest, search-live false [] x rest)
    search-live linked (fails ∷ weak) x (c ∷ rest) = ground (
      arith,
      search-live true weak x rest,
      search-live false weak x rest,
      search-live false (fails ∷ weak) x rest,
      search-live true (fails ∷ weak) x rest,
    )

    pub search-found :
        (linked : Bool) (weak : List Bool) (x : A) (nodes : List (Node A))
        → (search_loop same linked weak x nodes).found ≡ member x (live nodes)
    unfolding live search_loop passed member
    search-found linked weak x [] = refl
    search-found linked [] x (c ∷ rest) =
        ground (arith, search-found true [] x rest, search-found false [] x rest)
    search-found linked (fails ∷ weak) x (c ∷ rest) = ground (
      arith,
      search-found true weak x rest,
      search-found false weak x rest,
      search-found false (fails ∷ weak) x rest,
      search-found true (fails ∷ weak) x rest,
    )

    -- A search uses up failures, and at least one if the node before the returned one does not
    -- point at it.
    pub search-spurious :
        (linked : Bool) (weak : List Bool) (x : A) (nodes : List (Node A))
        → let s = search_loop same linked weak x nodes in
          (spurious s.weak ≤ spurious weak)
          × (linked ≡ true → s.linked ≡ false → spurious s.weak < spurious weak)
    unfolding search_loop passed
    search-spurious linked weak x [] = ground arith
    search-spurious linked [] x (c ∷ rest) =
        ground (arith, search-spurious true [] x rest, search-spurious false [] x rest)
    search-spurious linked (true ∷ weak) x (c ∷ rest) = ground (
      arith,
      search-spurious true weak x rest,
      search-spurious false weak x rest,
      search-spurious false (true ∷ weak) x rest,
      search-spurious true (true ∷ weak) x rest,
    )
    search-spurious linked (false ∷ weak) x (c ∷ rest) = ground (
      arith,
      search-spurious true weak x rest,
      search-spurious false weak x rest,
      search-spurious false (false ∷ weak) x rest,
      search-spurious true (false ∷ weak) x rest,
    )

    -- The mark takes the first of the items away.
    pub live-mark :
        (x : A) (nodes : List (Node A)) → live (mark same x nodes) ≡ remove_first x (live nodes)
    unfolding live mark remove_first
    live-mark x [] = refl
    live-mark x (c ∷ rest) = ground (arith, live-mark x rest)

  pub empty_loop-live : (nodes : List (Node A)) → empty_loop nodes ≡ is_nil (live nodes)
  unfolding empty_loop live
  empty_loop-live [] = refl
  empty_loop-live (c ∷ rest) = ground (arith, empty_loop-live rest)
