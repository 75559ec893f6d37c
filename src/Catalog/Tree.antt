-- ===== src/Catalog/Tree.antt =====
-- The categories form a tree of two levels, and what an addition and an assignment need to keep it.
use unishop_china.Prelude.{
  ℕ, ◌≤◌, ◌≡◌, ◌∙◌, refl, sym, subst, true, Bool, Option, none, some, List, [], ◌∷◌, arith,
  Bool-cases, inl, inr, ◌==◌,
}
use unishop_china.Prelude.Rows.{first?, update, count, All}
use unishop_china.Prelude.Rows.Counting.{
  updated, count-update_eq, count-none, first?-holds, All-first?, first?-update,
}
use unishop_china.Prelude.Rows.Selecting.{All-map}
use unishop_china.Prelude.Rows.Unique.{Only}
use unishop_china.Market.Tables.{Category}
use unishop_china.Catalog.Repository.{has_id, has_slug, refers_to}

-- `ck_categories_two_levels`
abbrev pub Levelled : Option ℕ → Option ℕ → ℕ → Type 0
Levelled none parent_level level = (parent_level ≡ none) × (level ≡ 1)
Levelled (some id) parent_level level = (parent_level ≡ some 1) × (level ≡ 2)

-- A parent is a root, and it is active if its child is.
abbrev pub HasParent : List Category → Bool → Option ℕ → Type 0
HasParent rows active none = Unit {0}
HasParent rows active (some id) =
    (parent : Category) × (first? (has_id id) rows ≡ some parent)
    × (parent.parent_id ≡ none)
    × (active ≡ true → parent.is_active ≡ true)

abbrev pub IsNested : List Category → Category → Type 0
IsNested rows c =
    Levelled c.parent_id c.parent_level c.level × HasParent rows c.is_active c.parent_id

-- Keys and slugs are unique, every category is a root or the child of a root, an active category
-- has an active parent, and there are at most 500.
pub record IsTree (rows : List Category) : Type 0 where
  pub unique_id : (i : ℕ) → count (has_id i) rows ≤ 1
  pub unique_slug : (s : ℕ) → count (has_slug s) rows ≤ 1
  pub nested : All (IsNested rows) rows
  pub bounded : count (λ _. true) rows ≤ 500

added-HasParent :
    (row : Category) (rows : List Category) (active : Bool) (parent : Option ℕ)
    → first? (has_id row.id) rows ≡ none
    → HasParent rows active parent
    → HasParent (row ∷ rows) active parent
unfolding first?
added-HasParent row rows active none fresh h = tt
added-HasParent row rows active (some id) fresh (parent, e, root, act) =
    (parent, ground (arith, fresh), root, act)

pub added-IsTree :
    (row : Category) (rows : List Category)
    → first? (has_id row.id) rows ≡ none
    → first? (has_slug row.slug) rows ≡ none
    → count (λ _. true) rows ≤ 499
    → Levelled row.parent_id row.parent_level row.level
    → HasParent rows row.is_active row.parent_id
    → IsTree rows
    → IsTree (row ∷ rows)
unfolding count
added-IsTree row rows fresh_id fresh_slug room level parent v = record {
  unique_id = λ i. ground (arith, v.unique_id i, count-none (has_id row.id) rows fresh_id);
  unique_slug =
      λ s. ground (arith, v.unique_slug s, count-none (has_slug row.slug) rows fresh_slug);
  nested = (
    (level, added-HasParent row rows row.is_active row.parent_id fresh_id parent),
    All-map (IsNested rows) (IsNested (row ∷ rows)) rows
        (λ c n. (n.0, added-HasParent row rows c.is_active c.parent_id fresh_id n.1)) v.nested,
  );
  bounded = ground arith;
}

-- What an assignment to `row` must give the children of `row`.
abbrev pub Supports : Category → (Category → Category) → Category → Type 0
Supports row f c =
    refers_to c.parent_id row.id ≡ true
    → ((f row).parent_id ≡ none) × (c.is_active ≡ true → (f row).is_active ≡ true)

module _ (row : Category) (f : Category → Category) (rows : List Category)
    (same_id : (c : Category) → (f c).id ≡ c.id) (only : Only (has_id row.id) row rows) where
  found_lem :
      (id : ℕ) (parent : Category)
      → first? (has_id id) rows ≡ some parent
      → first? (has_id id) (update (has_id row.id) f rows) ≡ some (updated (has_id row.id) f parent)
  found_lem id parent e =
      first?-update (has_id id) (has_id row.id) f rows parent (λ x. ground (arith, same_id x)) e

  pub moved-HasParent :
      (active : Bool) (parent : Option ℕ)
      → (refers_to parent row.id ≡ true
          → ((f row).parent_id ≡ none) × (active ≡ true → (f row).is_active ≡ true))
      → HasParent rows active parent
      → HasParent (update (has_id row.id) f rows) active parent
  moved-HasParent active none support h = tt
  moved-HasParent active (some id) support (parent, e, root, act) =
      elim (Bool-cases (parent.id == row.id)) [
        | inr other ↦ (parent, found_lem id parent e ∙ ground arith, root, act)
        | inl hit ↦
            let same : parent ≡ row =
              All-first? (λ y. has_id row.id y ≡ true → y ≡ row) (has_id id) rows parent only e
                hit in
            let (root', act') = support (ground (arith, first?-holds (has_id id) rows parent e)) in
            (f row, found_lem id parent e ∙ ground arith, root', act')
      ]

  nested_lem :
      (xs : List Category)
      → Only (has_id row.id) row xs
      → All (Supports row f) xs
      → All (IsNested rows) xs
      → IsNested (update (has_id row.id) f rows) (f row)
      → All (IsNested (update (has_id row.id) f rows)) (update (has_id row.id) f xs)
  unfolding update
  nested_lem [] o s n own = tt
  nested_lem (x ∷ xs) o s n own = elim (Bool-cases (has_id row.id x)) [
    | inl hit ↦ rw hit (
      subst (λ y. IsNested (update (has_id row.id) f rows) (f y)) (sym (o.0 hit)) own,
      nested_lem xs o.1 s.1 n.1 own,
    )
    | inr miss ↦
        rw miss (
          (n.0.0, moved-HasParent x.is_active x.parent_id s.0 n.0.1),
          nested_lem xs o.1 s.1 n.1 own,
        )
  ]

  pub assigned-IsTree :
      ((c : Category) → (f c).slug ≡ c.slug)
      → All (Supports row f) rows
      → IsNested (update (has_id row.id) f rows) (f row)
      → IsTree rows
      → IsTree (update (has_id row.id) f rows)
  assigned-IsTree same_slug s own v = record {
    unique_id = λ i.
        rw (count-update_eq (has_id i) (has_id row.id) f rows (λ x. ground (arith, same_id x)))
          (v.unique_id i);
    unique_slug = λ i.
        rw (count-update_eq (has_slug i) (has_id row.id) f rows (λ x. ground (arith, same_slug x)))
          (v.unique_slug i);
    nested = nested_lem rows only s v.nested own;
    bounded = rw (count-update_eq (λ _. true) (has_id row.id) f rows (λ x. refl)) v.bounded;
  }
