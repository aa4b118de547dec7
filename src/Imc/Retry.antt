-- ===== src/Imc/Retry.antt =====
-- src/general/imc.cpp, `tick`: a read that the component below refuses.
use vans.Base.{
  ℕ, ◌/◌, ◌^◌, ◌<◌, ◌≤◌, ◌≡◌, refl, ap, true, List, ◌∷◌, arith, ok, ◌>>=◌, Returns, returns,
}
use native.Mathlib.Nat.{div-lt_self}
use vans.Common.{BaseRequest}
use vans.Mapping.{map_stride_4096, stride_mapping_4096, apply_mapping}
use vans.Mapping.Stride.{stride_mapping-addr, stride_mapping_roundtrip}
use vans.NextLevel.{NextLevel}
use vans.Imc.{ImcController, get_next_level, tick_read}

page-shrinks : (p n : ℕ) → 2 ≤ n → n ≤ p → p / n / n < p / n
page-shrinks p n h l = div-lt_self {n = p / n} {k = n} (grind arith) (omega arith)

remap-lt :
    (a n : ℕ)
    → a < 2 ^ 64
    → 2 ≤ n
    → n ≤ a / 4096
    → (map_stride_4096 (map_stride_4096 a n).0 n).0 < (map_stride_4096 a n).0
remap-lt a n h two l =
    let once = stride_mapping-addr a n h in
    let small = (stride_mapping_roundtrip a n h (omega arith)).2 in
    let twice = stride_mapping-addr (map_stride_4096 a n).0 n (omega arith) in
    let page : (map_stride_4096 a n).0 / 4096 ≡ a / 4096 / n = omega arith in
    let shrinks = page-shrinks (a / 4096) n two l in let again = ap (λ x. x / n) page in omega arith

module _ {N : Type 0} (next : NextLevel N) where
  abbrev mapped : ImcController N → BaseRequest → BaseRequest
  mapped c front = record front { addr = (get_next_level next front.addr c).0 }

  abbrev kept : ImcController N → BaseRequest → List BaseRequest → ImcController N
  kept c front rest = record c { rpq = record (c.rpq) { queue = mapped c front ∷ rest } }

  refused :
      (c : ImcController N) (front : BaseRequest) (rest : List BaseRequest)
      → c.rpq.queue ≡ front ∷ rest
      → ((i : ℕ) → next.full i c.next_level_components ≡ true)
      → tick_read next c ≡ ok (kept c front rest)
  unfolding tick_read
  refused c front rest q full = simp (q, tick_read, full (get_next_level next front.addr c).1) refl

  -- Over at least two components that are interleaved and all full, a read of a page past the first of
  -- each component is refused twice: it is queued still, but under an address below the one that its
  -- mapping gives.
  pub tick_read-remaps :
      (c : ImcController N) (front : BaseRequest) (rest : List BaseRequest)
      → c.rpq.queue ≡ front ∷ rest
      → c.mapping_func ≡ stride_mapping_4096
      → front.addr < 2 ^ 64
      → 2 ≤ next.count
      → next.count ≤ front.addr / 4096
      → ((i : ℕ) → next.full i c.next_level_components ≡ true)
      → Returns
          (λ d.
            (req : BaseRequest) × (d.rpq.queue ≡ req ∷ rest)
            × (req.addr < (map_stride_4096 front.addr next.count).0))
          (tick_read next c >>= λ d. tick_read next d)
  unfolding get_next_level apply_mapping
  tick_read-remaps c front rest q m h two l full = rw (refused c front rest q full) (
      rw (refused (kept c front rest) (mapped c front) rest refl full)
        (rw m (returns (_, refl, remap-lt front.addr next.count h two l))))
