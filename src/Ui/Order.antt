-- ===== src/Ui/Order.antt =====
-- The order of the table: the comparison of each sort mode is one that sort.Slice accepts.
use auto_tunnel.Prelude.{ℕ, ◌≡◌, sym, ◌∙◌, Bool, true, false, arith, ltb, ◌==◌, if◌then◌else◌}
use auto_tunnel.Prelude.Int.{ltb_ℤ, eqb_ℤ}
use auto_tunnel.Prelude.Sort.{IsOrder}
use auto_tunnel.Text.{eqb, ltb_bytes}
use auto_tunnel.Text.Equality.{
  eqb_iff, ltb_bytes_irrefl, ltb_bytes_total, ltb_bytes_asym, ltb_bytes_trans_not,
}
use auto_tunnel.State.{Tunnel}
use auto_tunnel.Ui.{
  SortMode, by_name, by_local_port, by_traffic, by_remote, name_less, remote_key, traffic,
  row_before,
}

-- A comparison by one thing first, and by another where that is the same.
record IsRank {A : Type 0} (same less : A → A → Bool) : Type 0 where
  order : IsOrder less
  same_less : (x y : A) → same x y ≡ true → less x y ≡ false
  same_sym : (x y : A) → same x y ≡ true → same y x ≡ true
  -- What neither order tells apart is the same.
  total : (x y : A) → less x y ≡ false → less y x ≡ false → same x y ≡ true
  same_trans : (x y z : A) → same x y ≡ true → same y z ≡ true → same x z ≡ true

abbrev ranked : {A : Type 0} → (same less next : A → A → Bool) → A → A → Bool
ranked same less next x y = if same x y then next x y else less x y

module _ {A : Type 0} {same less next : A → A → Bool} (r : IsRank same less)
    (o : IsOrder next) where
  ranked-asym : (x y : A) → ranked same less next x y ≡ true → ranked same less next y x ≡ false
  ranked-asym x y h = ground (
    arith,
    r.order.asym x y,
    r.same_less x y,
    r.same_sym x y,
    r.same_sym y x,
    o.asym x y,
    r.total x y,
  )

  ranked-trans_not :
      (x y z : A)
      → ranked same less next y x ≡ false
      → ranked same less next z y ≡ false
      → ranked same less next z x ≡ false
  ranked-trans_not x y z h k = ground (
    arith,
    o.trans_not x y z,
    r.order.trans_not x y z,
    r.order.trans_not z x y,
    r.same_sym y x,
    r.same_sym z y,
    r.same_sym z x,
    r.same_trans z y x,
    r.same_trans y z x,
    r.same_trans z x y,
    r.same_less y x,
    r.same_less z y,
    r.same_less x z,
    r.total z y,
  )

  ranked-IsOrder : IsOrder (ranked same less next)
  ranked-IsOrder = record { asym = ranked-asym; trans_not = ranked-trans_not }

bytes-IsRank : IsRank eqb ltb_bytes
bytes-IsRank = record {
  order = record { asym = ltb_bytes_asym; trans_not = ltb_bytes_trans_not };
  same_less = λ x y e. ground (arith, eqb_iff x y, ltb_bytes_irrefl x);
  same_sym = λ x y e. (eqb_iff y x).1 (sym ((eqb_iff x y).0 e));
  total = λ x y h k. ground (arith, ltb_bytes_total x y, eqb_iff x y);
  same_trans = λ x y z e f. (eqb_iff x z).1 ((eqb_iff x y).0 e ∙ (eqb_iff y z).0 f);
}

int-IsOrder : IsOrder ltb_ℤ
int-IsOrder = record { asym = λ x y h. ground arith; trans_not = λ x y z h k. ground arith }

int-IsRank : IsRank eqb_ℤ ltb_ℤ
int-IsRank = record {
  order = int-IsOrder;
  same_less = λ x y e. ground arith;
  same_sym = λ x y e. ground arith;
  total = λ x y h k. ground arith;
  same_trans = λ x y z e f. ground arith;
}

abbrev more_traffic : ℕ → ℕ → Bool
more_traffic a b = ltb b a

traffic-IsRank : IsRank ◌==◌ more_traffic
traffic-IsRank = record {
  order = record { asym = λ x y h. ground arith; trans_not = λ x y z h k. ground arith };
  same_less = λ x y e. ground arith;
  same_sym = λ x y e. ground arith;
  total = λ x y h k. ground arith;
  same_trans = λ x y z e f. ground arith;
}

-- The rank of a thing that the rows have.
part-IsRank :
    {A B : Type 0} {same less : B → B → Bool} (part : A → B)
    → IsRank same less
    → IsRank (λ x y. same (part x) (part y)) (λ x y. less (part x) (part y))
part-IsRank part r = record {
  order = record {
    asym = λ x y. r.order.asym (part x) (part y);
    trans_not = λ x y z. r.order.trans_not (part x) (part y) (part z);
  };
  same_less = λ x y. r.same_less (part x) (part y);
  same_sym = λ x y. r.same_sym (part x) (part y);
  total = λ x y. r.total (part x) (part y);
  same_trans = λ x y z. r.same_trans (part x) (part y) (part z);
}

name_less-IsOrder : IsOrder name_less
unfolding name_less
name_less-IsOrder =
    ranked-IsOrder (part-IsRank (λ (t : Tunnel). t.name) bytes-IsRank)
      (part-IsRank (λ (t : Tunnel). t.container_port) int-IsRank).order

pub row_before-IsOrder : (mode : SortMode) → IsOrder (row_before mode)
unfolding row_before
row_before-IsOrder by_name = name_less-IsOrder
row_before-IsOrder by_local_port =
    ranked-IsOrder (part-IsRank (λ (t : Tunnel). t.local_port) int-IsRank) name_less-IsOrder
row_before-IsOrder by_traffic =
    ranked-IsOrder (part-IsRank traffic traffic-IsRank) name_less-IsOrder
row_before-IsOrder by_remote =
    ranked-IsOrder (part-IsRank remote_key bytes-IsRank) name_less-IsOrder
