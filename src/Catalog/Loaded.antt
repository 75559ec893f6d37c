-- ===== src/Catalog/Loaded.antt =====
-- A row that the service loaded, in a tree.
use unishop_china.Prelude.{
  ℕ, ◌≡◌, refl, true, false, Bool, Option, none, some, arith, Bool-cases, inl, inr,
}
use unishop_china.Prelude.Rows.{first?, update}
use unishop_china.Prelude.Rows.Unique.{Only}
use unishop_china.Market.Tables.{Category, MarketDb}
use unishop_china.Catalog.Repository
use unishop_china.Catalog.Repository.{
  has_id, has_slug, refers_to, precedes, is_child_of, catalog_mutation,
}
use unishop_china.Catalog.Tree.{HasParent, IsNested, moved-HasParent}
use unishop_china.Catalog.Parents.{only_lem, own_lem, row-IsNested}
use unishop_china.Catalog.Keeps.{Valid}

module _ (slug : ℕ) (row : Category) (db : MarketDb) (v : Valid db)
    (found : Repository.get slug db ≡ some row) where
  pub row_Only : Only (has_id row.id) row db.categories
  unfolding Repository.get
  row_Only = only_lem db.categories slug row v found

  pub row_own : first? (has_id row.id) db.categories ≡ some row
  unfolding Repository.get
  row_own = own_lem db.categories slug row v found

  pub row_IsNested : IsNested db.categories row
  unfolding Repository.get
  row_IsNested = row-IsNested db.categories slug row v found

  -- A row that is no child of its own parent keeps its parent in the table that an assignment leaves.
  pub own-HasParent :
      (f : Category → Category) (active : Bool) (parent : Option ℕ)
      → ((c : Category) → (f c).id ≡ c.id)
      → refers_to parent row.id ≡ false
      → HasParent db.categories active parent
      → HasParent (update (has_id row.id) f db.categories) active parent
  own-HasParent f active parent same other h =
      moved-HasParent row f db.categories same row_Only active parent (λ e. absurd (cc)) h

  -- No row of a tree is its own parent.
  pub not_own_parent : refers_to row.parent_id row.id ≡ false
  not_own_parent = elim (Bool-cases (refers_to row.parent_id row.id)) [
    | inr other ↦ other
    | inl own ↦ absurd (go row.parent_id row_IsNested.1 refl own)
  ]
    where
      go :
          (p : Option ℕ)
          → HasParent db.categories row.is_active p
          → row.parent_id ≡ p
          → refers_to p row.id ≡ true
          → ⊥
      go none h q own = cc
      go (some i) (parent, e, root, act) q own =
          let key : i ≡ row.id = ground arith in
          let same : parent ≡ row = ground (arith, row_own) in cc
