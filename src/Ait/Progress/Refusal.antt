-- ===== src/Ait/Progress/Refusal.antt =====
-- src/general/ait.cpp, `tick_internal_buffer`, over a component below that refuses.
use vans.Base.{
  ℕ, ◌≡◌, ◌∙◌, refl, ap, Bool, true, false, not, ◌&&◌, ◌||◌, ltb, ◌==◌, List, [], ◌∷◌, Has, inl,
  inr, arith, Result, ok, err, ◌>>=◌, Error, counter_missing, Bool-cases,
}
use vans.Common.{clk_invalid}
use vans.NextLevel.{NextLevel}
use vans.Ait.Entry.{BufferEntry, is_init}
use vans.Ait.Controller.{Core, AitController}
use vans.Ait.Tick.{tick_entry, tick_entries, tick_internal_buffer}
use vans.Ait.Progress.Transfer.{asks_next_level, Refusing, refused_transfer-throws}

-- The loop makes a transfer of the entry at `clk`, one that asks the component below.
abbrev pub asks_at : ℕ → BufferEntry → Bool
asks_at clk e =
    asks_next_level e.pending_request.type e.state
    && (is_init e.state
        || e.pending
          && not e.waiting_action_clk_update
          && not (e.next_action_clk == clk_invalid)
          && not (ltb clk e.next_action_clk))

abbrev pub Throws {ℓ} : {A : Type ℓ} → Result A → Type ℓ
Throws m = (e : Error) × (m ≡ err e)

after :
    {A B : Type 0} (r : Result A) (f : A → Result B) → ((a : A) → Throws (f a)) → Throws (r >>= f)
after (err thrown) f h = (thrown, refl)
after (ok a) f h = h a

module _ {N M : Type 0} (next : NextLevel N) (refusing : Refusing next) (clk : ℕ) where
  tick_entry-throws :
      (key : ℕ) (e : BufferEntry) (c : Core N M)
      → asks_at clk e ≡ true
      → tick_entry next key e clk c ≡ err counter_missing
  unfolding tick_entry
  tick_entry-throws key e c h =
      let t = refused_transfer-throws next key e clk c (ground arith) refusing in
      elim (Bool-cases (is_init e.state)) [
        | inl first ↦ rw first t
        | inr later ↦
            let pending : not e.pending ≡ false = ground arith in
            let answered : e.waiting_action_clk_update ≡ false = ground arith in
            let valid : (e.next_action_clk == clk_invalid) ≡ false = ground arith in
            let due : ltb clk e.next_action_clk ≡ false = ground arith in
            (simp (later, pending, answered, valid, due) refl) ∙ t
      ]

  tick_entries-throws :
      (key : ℕ) (e : BufferEntry) (m : List (ℕ × BufferEntry)) (c : Core N M)
      → Has (key, e) m
      → asks_at clk e ≡ true
      → Throws (tick_entries next m clk c)
  unfolding tick_entries
  tick_entries-throws key e [] c h a = absurd h
  tick_entries-throws key e ((k, f) ∷ m) c (inl same) a =
      let t = tick_entry-throws k f c (ap (λ p. asks_at clk p.1) same ∙ a) in
      (counter_missing, rw t refl)
  tick_entries-throws key e ((k, f) ∷ m) c (inr later) a =
      after (tick_entry next k f clk c)
        (λ (f', d). tick_entries next m clk d >>= λ (m', d'). ok ((k, f') ∷ m', d'))
        (λ (f', d). let (thrown, t) = tick_entries-throws key e m d later a in (thrown, rw t refl))

  -- Over components that refuse each request, the loop over the buffer always ends in an exception when
  -- some entry is to ask the component below, wherever the entry stands and whatever the others do.
  pub refused_buffer-throws :
      (key : ℕ) (e : BufferEntry) (c : AitController N M)
      → Has (key, e) c.buffer.entry_map
      → asks_at clk e ≡ true
      → Throws (tick_internal_buffer next clk c)
  unfolding tick_internal_buffer
  refused_buffer-throws key e c h a =
      let (thrown, t) = tick_entries-throws key e c.buffer.entry_map c.core h a in
      (thrown, rw t refl)
