-- ===== src/Rmw/Safety/Transfer.antt =====
-- src/general/rmw.cpp, `tick_internal_buffer` and the invariant.
use vans.Base.{
  ℕ, ◌≤◌, ◌≡◌, ◌≢◌, refl, ap, inl, inr, true, false, List, [], ◌∷◌, none, some, arith, ltb, ◌==◌,
  Bool-cases, if◌then◌else◌, ok, err, unknown_state_transfer, invalid_next_action, Returns, returns,
  Returns-bind,
}
use vans.Common.{clk_invalid}
use vans.NextLevel.{NextLevel, Contract}
use vans.Buffer.Laws.{SameKeys}
use vans.Rmw.Entry.{
  BufferEntry, RequestType, write_rmw, write_comb, write_patch, read_cold, read_ff, flush_back,
  RequestState, init, pending_read, pending_modify, pending_write, pending_readout, pending_ait_r,
  pending_ait_w, is_read, is_init, is_end,
}
use vans.Rmw.Controller.{Core}
use vans.Rmw.Transfer.{state_trans}
use vans.Rmw.Tick.{transfer_entry, tick_entry, tick_entries}
use vans.Rmw.Safety.{EntryOk, CoreOk, Kept, AllOk, goes_through}
use vans.Rmw.Safety.WriteTransfer
use vans.Rmw.Safety.ReadTransfer

module _ {N : Type 0} {next : NextLevel N} {horizon : ℕ} (contract : Contract next horizon) where
  by_table :
      (ty : RequestType) (st : RequestState) (key : ℕ) (e : BufferEntry) (clk : ℕ) (c : Core N)
      → e.pending_request.type ≡ ty
      → e.state ≡ st
      → goes_through ty st ≡ true
      → is_end st ≡ false
      → (is_read ty ≡ true → e.pending ≡ true)
      → clk ≤ horizon
      → EntryOk key e
      → CoreOk contract c
      → Returns (Kept contract key) (elim (state_trans next ty st) [
        | none ↦ err unknown_state_transfer
        | some func ↦ func key e clk c
      ])
  unfolding state_trans
  by_table write_rmw init key e clk c ty st g f p t v w =
      WriteTransfer.write_rmw_init-Kept contract key e clk c ty t v w
  by_table write_rmw pending_ait_r key e clk c ty st g f p t v w =
      WriteTransfer.write_rmw_pending_ait_r-Kept contract key e clk c ty t v w
  by_table write_rmw pending_read key e clk c ty st g f p t v w =
      WriteTransfer.write_rmw_pending_read-Kept contract key e clk c ty t v w
  by_table write_rmw pending_ait_w key e clk c ty st g f p t v w =
      WriteTransfer.write_rmw_pending_ait_w-Kept contract key e clk c ty t v w
  by_table write_rmw pending_modify key e clk c ty st g f p t v w =
      WriteTransfer.write_rmw_pending_modify-Kept contract key e clk c ty t v w
  by_table write_rmw pending_write key e clk c ty st g f p t v w =
      WriteTransfer.write_rmw_pending_write-Kept contract key e clk c ty t v w
  by_table write_comb init key e clk c ty st g f p t v w =
      WriteTransfer.write_comb_init-Kept contract key e clk c ty t v w
  by_table write_comb pending_ait_w key e clk c ty st g f p t v w =
      WriteTransfer.write_comb_pending_ait_w-Kept contract key e clk c ty t v w
  by_table write_comb pending_modify key e clk c ty st g f p t v w =
      WriteTransfer.write_comb_pending_modify-Kept contract key e clk c ty t v w
  by_table write_comb pending_write key e clk c ty st g f p t v w =
      WriteTransfer.write_comb_pending_write-Kept contract key e clk c ty t v w
  by_table write_patch init key e clk c ty st g f p t v w =
      WriteTransfer.write_patch_init-Kept contract key e clk c ty t v w
  by_table write_patch pending_ait_w key e clk c ty st g f p t v w =
      WriteTransfer.write_patch_pending_ait_w-Kept contract key e clk c ty t v w
  by_table write_patch pending_modify key e clk c ty st g f p t v w =
      WriteTransfer.write_patch_pending_modify-Kept contract key e clk c ty t v w
  by_table write_patch pending_write key e clk c ty st g f p t v w =
      WriteTransfer.write_patch_pending_write-Kept contract key e clk c ty t v w
  by_table flush_back init key e clk c ty st g f p t v w =
      WriteTransfer.flush_back_init-Kept contract key e clk c ty t v w
  by_table flush_back pending_ait_w key e clk c ty st g f p t v w =
      WriteTransfer.flush_back_pending_ait_w-Kept contract key e clk c ty t v w
  by_table flush_back pending_write key e clk c ty st g f p t v w =
      WriteTransfer.flush_back_pending_write-Kept contract key e clk c ty t v w
  by_table read_cold init key e clk c ty st g f p t v w =
      ReadTransfer.read_cold_init-Kept contract key e clk c ty (p refl) t v w
  by_table read_cold pending_ait_r key e clk c ty st g f p t v w =
      ReadTransfer.read_cold_pending_ait_r-Kept contract key e clk c ty (p refl) t v w
  by_table read_cold pending_read key e clk c ty st g f p t v w =
      ReadTransfer.read_cold_pending_read-Kept contract key e clk c ty (p refl) t v w
  by_table read_cold pending_readout key e clk c ty st g f p t v w =
      ReadTransfer.read_cold_pending_readout-Kept contract key e clk c ty (p refl) (ap is_init st) t
        v w
  by_table read_ff init key e clk c ty st g f p t v w =
      ReadTransfer.read_ff_init-Kept contract key e clk c ty (p refl) t v w
  by_table read_ff pending_readout key e clk c ty st g f p t v w =
      ReadTransfer.read_ff_pending_readout-Kept contract key e clk c ty (p refl) (ap is_init st) t v
        w
  by_table _ _ key e clk c ty st g f p t v w = cc

  pub transfer_entry-Kept :
      (key : ℕ) (e : BufferEntry) (clk : ℕ) (c : Core N)
      → is_end e.state ≡ false
      → (is_read e.pending_request.type ≡ true → e.pending ≡ true)
      → clk ≤ horizon
      → EntryOk key e
      → CoreOk contract c
      → Returns (Kept contract key) (transfer_entry next key e clk c)
  unfolding transfer_entry
  transfer_entry-Kept key e clk c f p t v w =
      by_table e.pending_request.type e.state key e clk c refl refl v.legal f p t v w

  pub tick_entry-Kept :
      (key : ℕ) (e : BufferEntry) (clk : ℕ) (c : Core N)
      → clk ≤ horizon
      → EntryOk key e
      → CoreOk contract c
      → Returns (Kept contract key) (tick_entry next key e clk c)
  unfolding tick_entry
  tick_entry-Kept key e clk c t v w = elim (Bool-cases (is_init e.state)) [
    | inl i ↦
        rw i (transfer_entry-Kept key e clk c (ground arith) (λ r. v.started (ground arith)) t v w)
    | inr i ↦ rw i (elim (Bool-cases e.pending) [
      | inr q ↦ simp q (returns (v, w))
      | inl q ↦ simp q (elim (Bool-cases e.waiting_action_clk_update) [
        | inl a ↦ simp a (returns (v, w))
        | inr a ↦ simp a (ready i q a)
      ])
    ])
  ]
    where
      ready :
          is_init e.state ≡ false
          → e.pending ≡ true
          → e.waiting_action_clk_update ≡ false
          → Returns (Kept contract key) (
              if e.next_action_clk == clk_invalid
              then err invalid_next_action
              else if ltb clk e.next_action_clk
              then ok (e, c)
              else transfer_entry next key e clk c)
      ready i q a =
          let valid : e.next_action_clk ≢ clk_invalid = v.timed (ground arith) in
          let valid' : (e.next_action_clk == clk_invalid) ≡ false = ground arith in
          rw valid' (elim (Bool-cases (ltb clk e.next_action_clk)) [
            | inl l ↦ rw l (returns (v, w))
            | inr l ↦
                rw l (
                  transfer_entry-Kept key e clk c (let s = v.settled in ground arith) (λ r. q) t v
                    w)
          ])

  pub tick_entries-Kept :
      (m : List (ℕ × BufferEntry)) (clk : ℕ) (c : Core N)
      → clk ≤ horizon
      → AllOk m
      → CoreOk contract c
      → Returns (λ p. AllOk p.0 × SameKeys m p.0 × CoreOk contract p.1) (tick_entries next m clk c)
  unfolding tick_entries
  tick_entries-Kept [] clk c t a w = returns (tt, tt, w)
  tick_entries-Kept ((k, e) ∷ m) clk c t a w =
      Returns-bind (tick_entry-Kept k e clk c t a.0 w) (λ (e', c') h.
        Returns-bind (tick_entries-Kept m clk c' t a.1 h.1)
          (λ (m', c'') r. returns ((h.0, r.0), (refl, r.1), r.2)))
