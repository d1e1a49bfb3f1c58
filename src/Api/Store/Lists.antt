-- ===== src/Api/Store/Lists.antt =====
-- A table to which rows are added, in memory: a list of rows of all tenants, of which those with an
-- identifier that stands further down are not there. It shows that the laws of insertions can hold.
use aipy.Prelude.{
  sym, ap, subst, inl, inr, Bool, false, Option, none, some, List, [], ◌≡◌, ◌∙◌, ◌≢◌, ◌↔◌, ◌⊎◌, ◌∷◌,
  ◌==◌, if◌then◌else◌, nat_beq_iff, Bool-cases, if_true, if_false, any, keep, All, Any-map, In,
  any_iff, Any-keep, In-Any, string_eq, nat_eq,
}
use aipy.Security.{Uuid}
use aipy.Api.Rows.{Row}
use aipy.Api.Store.Inserts.{Inserts}

module _ {R : Type 0} (row : Row R) where
  abbrev pub same_id : R → R → Bool
  same_id r x = row.id x == row.id r

  unfoldable pub distinct : List R → List R
  distinct [] = []
  distinct (r ∷ rs) = let rest = distinct rs in if any (same_id r) rest then rest else r ∷ rest

  abbrev pub rows_in : List R → Uuid → List R
  rows_in db t = keep (λ r. row.tenant_id r == t) (distinct db)

  abbrev pub insert_row : List R → R → Option (List R)
  insert_row db r = if any (same_id r) (distinct db) then none else some (r ∷ db)

  no_other :
      (r z : R) (rest : List R) → any (same_id r) rest ≡ false → In z rest → row.id z ≢ row.id r
  no_other r z rest new there same =
      let hit =
        (any_iff (same_id r) rest (λ x. nat_beq_iff (row.id x) (row.id r))).1
          (In-Any (λ x. row.id x ≡ row.id r) rest z there same) in
      cc (hit, new)

  cons-same :
      (r x y : R) (rest : List R)
      → any (same_id r) rest ≡ false
      → (In x rest → In y rest → x ≡ y)
      → row.id x ≡ row.id y
      → In x (r ∷ rest)
      → In y (r ∷ rest)
      → x ≡ y
  cons-same r x y rest new same e (inl a) (inl b) = a ∙ sym b
  cons-same r x y rest new same e (inl a) (inr b) =
      absurd (no_other r y rest new b (sym e ∙ ap row.id a))
  cons-same r x y rest new same e (inr a) (inl b) =
      absurd (no_other r x rest new a (e ∙ ap row.id b))
  cons-same r x y rest new same e (inr a) (inr b) = same a b

  pub distinct-same :
      (rs : List R) (x y : R)
      → In x (distinct rs)
      → In y (distinct rs)
      → row.id x ≡ row.id y
      → x ≡ y
  unfolding distinct
  distinct-same [] x y h k e = elim h [ ]
  distinct-same (r ∷ rs) x y h k e = elim (Bool-cases (any (same_id r) (distinct rs))) [
    | inl known ↦
        distinct-same rs x y (subst (In x) (if_true _ _ known) h)
          (subst (In y) (if_true _ _ known) k) e
    | inr new ↦
        cons-same r x y (distinct rs) new (λ a b. distinct-same rs x y a b e) e
          (subst (In x) (if_false _ _ new) h) (subst (In y) (if_false _ _ new) k)
  ]

  pub rows_in-distinct : (db : List R) (t : Uuid) (x : R) → In x (rows_in db t) → In x (distinct db)
  rows_in-distinct db t x h =
      Any-map (distinct db) (λ r k. k.1)
        ((Any-keep (λ r. x ≡ r) (λ r. row.tenant_id r == t) (distinct db)).0 h)

  pub rows_in-scoped : (db : List R) (t : Uuid) → All (λ r. row.tenant_id r ≡ t) (rows_in db t)
  rows_in-scoped db t = scoped (distinct db)
    where
      scoped : (rs : List R) → All (λ r. row.tenant_id r ≡ t) (keep (λ r. row.tenant_id r == t) rs)
      scoped [] = tt
      scoped (r ∷ rs) = elim (Bool-cases (row.tenant_id r == t)) [
        | inl hit ↦ rw hit ((nat_beq_iff (row.tenant_id r) t).0 hit, scoped rs)
        | inr miss ↦ rw miss (scoped rs)
      ]

  pub insert_row-rows :
      (db db' : List R) (r : R)
      → insert_row db r ≡ some db'
      → (t : Uuid) (x : R)
      → In x (rows_in db' t) ↔ (((x ≡ r) × (row.tenant_id r ≡ t)) ⊎ In x (rows_in db t))
  unfolding distinct
  insert_row-rows db db' r h t x = elim (Bool-cases (any (same_id r) (distinct db))) [
    | inl known ↦ cc (sym (if_true none (some (r ∷ db)) known) ∙ h)
    | inr new ↦
        let added : r ∷ db ≡ db' = cc (sym (if_false none (some (r ∷ db)) new) ∙ h) in
        rw (← added, new)
          (elim (Bool-cases (row.tenant_id r == t)) [
            | inl hit ↦
                let own = (nat_beq_iff (row.tenant_id r) t).0 hit in
                rw hit (
                  λ k. elim k [ inl e ↦ inl (e, own) | inr e ↦ inr e ],
                  λ k. elim k [ inl e ↦ inl e.0 | inr e ↦ inr e ],
                )
            | inr miss ↦ rw miss (
              λ k. inr k,
              λ k. elim k [
                | inl e ↦ cc ((nat_beq_iff (row.tenant_id r) t).1 e.1, miss)
                | inr e ↦ e
              ],
            )
          ])
  ]

  unfoldable pub listed : Inserts (List R) row
  unfolding distinct
  listed = record {
    rows = rows_in;
    insert = insert_row;
    rows_scoped = rows_in-scoped;
    primary_key = λ db t x y h k e.
        distinct-same db x y (rows_in-distinct db t x h) (rows_in-distinct db t y k) e;
    inserted = insert_row-rows;
  }
