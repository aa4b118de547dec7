-- ===== src/System/Dispatch.antt =====
-- src/general/rmc.h: which component a request goes to, over interleaved components.
use vans.Base.{
  ℕ, ◌+◌, ◌^◌, ◌≤◌, ◌<◌, ◌≡◌, refl, ap, ◌⊎◌, inl, inr, ltb, Bool-cases, arith, ok, err, ◌>>=◌,
  below_start_addr,
}
use vans.Base.Bits.{sub64}
use vans.Common.{BaseRequest}
use vans.Mapping.{stride_mapping_4096, apply_mapping, map_stride_4096}
use vans.Mapping.Stride.{unmap, stride_mapping_roundtrip}
use vans.NextLevel.{NextLevel}
use vans.System.{Rmc, rmc_issue_request}

module _ {N : Type 0} (next : NextLevel N) (req : BaseRequest) (c : Rmc N) where
  -- The two outcomes for a request: below the region, or issued.
  abbrev pub Dispatched : Type 0
  Dispatched =
      ((req.addr < c.start_addr) × (rmc_issue_request next req c ≡ err below_start_addr))
      ⊎ ((c.start_addr ≤ req.addr)
          × (index : ℕ) × (addr : ℕ) × (index < next.count)
          × (c.start_addr + unmap next.count (addr, index) ≡ req.addr)
          × (rmc_issue_request next req c ≡ (
              next.issue_request index (record req { addr = addr }) c.next_level_components
              >>= λ (response, s). ok (response, record c { next_level_components = s }))))

  -- Under the stride mapping over at least one component, a request with an address of 64 bits
  -- throws if it is below the region, and is otherwise issued to one of the components, under an
  -- address from which, with the component's index, its own address is had back.
  pub rmc_issue_request-Dispatched :
      c.mapping_func ≡ stride_mapping_4096 → req.addr < 2 ^ 64 → 0 < next.count → Dispatched
  unfolding rmc_issue_request apply_mapping
  rmc_issue_request-Dispatched mapping a some_next = elim (Bool-cases (ltb req.addr c.start_addr)) [
    | inl below ↦ inl (ground arith, rw below refl)
    | inr inside ↦
        let within : c.start_addr ≤ req.addr = ground arith in
        let offset = sub64 req.addr c.start_addr in
        let there = map_stride_4096 offset next.count in
        let (back, page, less, index) =
          stride_mapping_roundtrip offset next.count (omega arith) some_next in
        inr (
          within,
          there.1,
          there.0,
          index,
          omega (arith, back),
          rw inside (
              ap
                (λ f.
                  next.issue_request (apply_mapping f offset next.count).1
                    (record req { addr = (apply_mapping f offset next.count).0 })
                    c.next_level_components
                  >>= λ (response, s). ok (response, record c { next_level_components = s }))
                mapping),
        )
  ]
