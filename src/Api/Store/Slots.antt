-- ===== src/Api/Store/Slots.antt =====
-- A table with room for one row, in memory. It has the laws of the interface, and those of every
-- unique key besides.
use aipy.Prelude.{
  String, refl, sym, ap, inl, inr, Bool, Option, none, some, List, [], ◌+◌, ◌≡◌, ◌∙◌, ◌↔◌, ◌⊎◌,
  ◌&&◌, ◌∷◌, ◌==◌, if◌then◌else◌, nat_beq_iff, Bool-cases, and_Decides, if_true, if_false, All, In,
  Any-witness, In-Any, string_eq, nat_eq,
}
use mathlib.Core.Logic.{ite, if_neg, if_pos}
use aipy.Security.{Uuid}
use aipy.Api.Rows.{Row}
use aipy.Api.Store.{bumped, Current, Stale, Table}
use aipy.Api.Store.Inserts.{Inserts}

module _ {R : Type 0} (row : Row R) where
  abbrev pub slot_rows : Option R → Uuid → List R
  slot_rows none t = []
  slot_rows (some r) t = if row.tenant_id r == t then r ∷ [] else []

  abbrev pub slot_insert : Option R → R → Option (Option R)
  slot_insert none r = some (some r)
  slot_insert (some x) r = none

  pub slot_scoped : (db : Option R) (t : Uuid) → All (λ r. row.tenant_id r ≡ t) (slot_rows db t)
  slot_scoped none t = tt
  slot_scoped (some r) t = elim (Bool-cases (row.tenant_id r == t)) [
    | inl hit ↦ rw hit ((nat_beq_iff (row.tenant_id r) t).0 hit, tt)
    | inr miss ↦ rw miss tt
  ]

  pub slot_rows_iff :
      (r x : R) (t : Uuid) → In x (slot_rows (some r) t) ↔ ((x ≡ r) × (row.tenant_id r ≡ t))
  slot_rows_iff r x t = elim (Bool-cases (row.tenant_id r == t)) [
    | inl hit ↦ rw hit (
      λ h. elim h [ inl e ↦ (e, (nat_beq_iff (row.tenant_id r) t).0 hit) | inr e ↦ absurd e ],
      λ h. inl h.0,
    )
    | inr miss ↦ rw miss (λ h. absurd h, λ h. cc ((nat_beq_iff (row.tenant_id r) t).1 h.1, miss))
  ]

  pub slot_same :
      (db : Option R) (t : Uuid) (x y : R) → In x (slot_rows db t) → In y (slot_rows db t) → x ≡ y
  slot_same none t x y h k = elim h [ ]
  slot_same (some r) t x y h k = ((slot_rows_iff r x t).0 h).0 ∙ sym ((slot_rows_iff r y t).0 k).0

  pub slot_inserted :
      (db db' : Option R) (r : R)
      → slot_insert db r ≡ some db'
      → (t : Uuid) (x : R)
      → In x (slot_rows db' t) ↔ (((x ≡ r) × (row.tenant_id r ≡ t)) ⊎ In x (slot_rows db t))
  slot_inserted none db' r h t x =
      let is : some r ≡ db' = cc in
      let one = slot_rows_iff r x t in
      rw (← is) (λ k. inl (one.0 k), λ k. elim k [ inl e ↦ one.1 e | inr e ↦ absurd e ])
  slot_inserted (some y) db' r h t x = absurd cc

  unfoldable pub slot_inserts : Inserts (Option R) row
  slot_inserts = record {
    rows = slot_rows;
    insert = slot_insert;
    rows_scoped = slot_scoped;
    primary_key = λ db t x y h k e. slot_same db t x y h k;
    inserted = slot_inserted;
  }

  module _ (same : Discrete R) where
    abbrev pub slot_match : R → R → Bool
    slot_match old r =
        row.tenant_id r == row.tenant_id old
        && (row.id r == row.id old && row.row_version r == row.row_version old)

    abbrev pub slot_write : Option R → R → R → Option (Option R × R)
    slot_write none old new = none
    slot_write (some r) old new =
        if slot_match old r then some (some (bumped row old new), bumped row old new) else none

    abbrev pub slot_flush : Option R → R → R → Option (Option R × R)
    slot_flush db old new = ite (same old new) (some (db, old)) (slot_write db old new)

    pub slot-Stale :
        (db : Option R) (old new : R)
        → Stale row old (slot_rows db (row.tenant_id old))
        → slot_write db old new ≡ none
    slot-Stale none old new h = elim h [ ]
    slot-Stale (some r) old new h = elim (Bool-cases (slot_match old r)) [
      | inl hit ↦
          let (x, there, (id, version)) = Any-witness (slot_rows (some r) (row.tenant_id old)) h in
          let is = ((slot_rows_iff r x (row.tenant_id old)).0 there).0 in
          let parts =
            (and_Decides _ _ (nat_beq_iff (row.tenant_id r) (row.tenant_id old)) (
                and_Decides _ _ (nat_beq_iff (row.id r) (row.id old))
                  (nat_beq_iff (row.row_version r) (row.row_version old)))).0
              hit in
          absurd (version (ap row.row_version is ∙ parts.1.1))
      | inr miss ↦ rw miss refl
    ]

    pub slot-Current :
        (db db' : Option R) (old new r : R)
        → slot_write db old new ≡ some (db', r)
        → (r ≡ bumped row old new)
          × Current row old (slot_rows db (row.tenant_id old))
          × (row.tenant_id new ≡ row.tenant_id old → In r (slot_rows db' (row.tenant_id old)))
    slot-Current none db' old new r h = absurd cc
    slot-Current (some x) db' old new r h = elim (Bool-cases (slot_match old x)) [
      | inl hit ↦
          let (tenant, (id, version)) =
            (and_Decides _ _ (nat_beq_iff (row.tenant_id x) (row.tenant_id old)) (
                and_Decides _ _ (nat_beq_iff (row.id x) (row.id old))
                  (nat_beq_iff (row.row_version x) (row.row_version old)))).0
              hit in
          let done = sym (if_true _ none hit) ∙ h in
          let is : r ≡ bumped row old new = cc done in
          let after : db' ≡ some (bumped row old new) = cc done in
          (
            is,
            In-Any _ (slot_rows (some x) (row.tenant_id old)) x
                ((slot_rows_iff x x (row.tenant_id old)).1 (refl, tenant)) (id, version),
            λ kept. rw after (
                (slot_rows_iff (bumped row old new) r (row.tenant_id old)).1
                  (is, row.tenant_kept (row.row_version old + 1) new ∙ kept)),
          )
      | inr miss ↦
          absurd (
            cc
              (sym (if_false (some (some (bumped row old new), bumped row old new)) none miss) ∙ h))
    ]

    unfoldable pub slot : (String → String → Bool) → Table (Option R) row
    slot equal = record {
      rows = slot_rows;
      flush = slot_flush;
      citext_equal = equal;
      rows_scoped = slot_scoped;
      flush_same = λ db r. if_pos (same r r) refl _ _;
      flush_stale = λ db old new changed stale.
          if_neg (same old new) changed _ _ ∙ slot-Stale db old new stale;
      flush_current = λ db db' old new r changed h.
          slot-Current db db' old new r (sym (if_neg (same old new) changed _ _) ∙ h);
    }
