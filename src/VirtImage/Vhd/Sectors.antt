-- ===== src/VirtImage/Vhd/Sectors.antt =====
-- The disk geometry of a VHD footer.
use xmount.Base.{ℕ, ◌+◌, ◌*◌, ◌/◌, ◌≤◌, ◌<◌, ◌≡◌, inl, inr, arith, false, Bool-cases}
use native.Mathlib.Nat.{div-le_self}
use xmount.Base.{ltb, leb, leb→lt, ◌||◌, block_bounds, u16}
use xmount.VirtImage.Vhd.{
  Geometry, total_sectors, heads_17, geometry_31, geometry_63, geometry, cylinders,
}

-- The geometry has the most whole cylinders that the sectors fill, and its numbers fit the footer.
pub record Fits (sectors : ℕ) (g : Geometry) : Type 0 where
  pub heads : (4 ≤ g.geom_h) × (g.geom_h ≤ 16)
  pub track : (17 ≤ g.geom_s) × (g.geom_s ≤ 255)
  pub exact : cylinders g ≡ g.geom_c_x_h / g.geom_h
  pub filled : cylinders g * g.geom_h * g.geom_s ≤ sectors
  pub no_more : sectors < (cylinders g + 1) * g.geom_h * g.geom_s

total_sectors_lem : (size : ℕ) → total_sectors size ≤ 267382800
unfolding total_sectors
total_sectors_lem size = ground arith

-- A geometry of 16 heads.
module _ (sectors : ℕ) where
  Fits-255 :
      sectors ≤ 267382800
      → Fits sectors (record { geom_c_x_h = sectors / 255; geom_h = 16; geom_s = 255 })
  unfolding cylinders
  Fits-255 most = record {
    heads = (omega arith, omega arith);
    track = (omega arith, omega arith);
    exact = omega arith;
    filled = omega arith;
    no_more = omega arith;
  }

  Fits-63 :
      sectors < 66059280
      → Fits sectors (record { geom_c_x_h = sectors / 63; geom_h = 16; geom_s = 63 })
  unfolding cylinders
  Fits-63 most = record {
    heads = (omega arith, omega arith);
    track = (omega arith, omega arith);
    exact = omega arith;
    filled = omega arith;
    no_more = omega arith;
  }

  Fits-31 :
      sectors / 31 < 16 * 1024
      → Fits sectors (record { geom_c_x_h = sectors / 31; geom_h = 16; geom_s = 31 })
  unfolding cylinders
  Fits-31 most = record {
    heads = (omega arith, omega arith);
    track = (omega arith, omega arith);
    exact = omega arith;
    filled = omega arith;
    no_more = omega arith;
  }

  Fits-17 :
      (h : ℕ)
      → 4 ≤ h
      → h ≤ 16
      → sectors / 17 < h * 1024
      → Fits sectors (record { geom_c_x_h = sectors / 17; geom_h = h; geom_s = 17 })
  unfolding cylinders
  Fits-17 h some_heads few most =
      let c : ℕ = sectors / 17 / h in
      let (split, rest) = block_bounds (sectors / 17) h (omega arith) in
      let small : c ≤ sectors / 17 = div-le_self (sectors / 17) h in
      let e : u16 c ≡ c = omega arith in
      let next : (c + 1) * h ≡ c * h + h = omega arith in
      record {
        heads = (some_heads, few);
        track = (omega arith, omega arith);
        exact = e;
        filled = rw e (omega (arith, split));
        no_more = rw e (rw next (omega (arith, split, rest)));
      }

heads_17_lem : (c_x_h : ℕ) → 4 ≤ heads_17 c_x_h
unfolding heads_17
heads_17_lem c_x_h = ground arith

geometry-Fits : (sectors : ℕ) → sectors ≤ 267382800 → Fits sectors (geometry sectors)
unfolding geometry geometry_31 geometry_63
geometry-Fits sectors most =
    let c : ℕ = sectors / 17 in
    let h : ℕ = heads_17 c in
    elim (Bool-cases (leb 66059280 sectors)) [
      | inl large ↦ rw large (Fits-255 sectors most)
      | inr small ↦ rw small (elim (Bool-cases (leb (h * 1024) c || ltb 16 h)) [
        | inl more ↦ rw more (elim (Bool-cases (leb (16 * 1024) (sectors / 31))) [
          | inl most_heads ↦ rw most_heads (Fits-63 sectors (leb→lt _ _ small))
          | inr fits ↦ rw fits (Fits-31 sectors (leb→lt _ _ fits))
        ])
        | inr fits ↦
            let tracks : c < h * 1024 = ground arith in
            let few : h ≤ 16 = ground arith in
            let again : leb (h * 1024) c ≡ false = ground arith in
            rw (fits, again) (Fits-17 sectors h (heads_17_lem c) few tracks)
      ])
    ]

-- For every image size, the geometry of its sectors has at most 16 heads and 255 sectors per track,
-- its number of cylinders is not cut off, and it is the largest number of whole cylinders that the
-- sectors fill.
pub geometry-total_sectors : (size : ℕ) → Fits (total_sectors size) (geometry (total_sectors size))
geometry-total_sectors size = geometry-Fits (total_sectors size) (total_sectors_lem size)
