-- ===== src/Component/Walk.antt =====
-- src/general/controller.h: `pending` over the list of the components of a tree, and `drain` twice.
use vans.Base.{
  ◌≡◌, refl, sym, ap, ◌∙◌, inl, inr, Bool, false, ◌||◌, List, [], ◌∷◌, ◌++◌, Bool-cases, err,
  drain_twice, arith, Partial, Partial-bind, Partial-any, returned, thrown,
}
use vans.Component.{
  Ops, Member, Component, Components, component, no_next, and_next, drain, drain_next, pending,
  pending_next,
}

module _ {S : Type 0} where
  unfoldable mutual
    -- The members, each one before those below it.
    pub members : Component S → List (Member S)
    members (component c next) = c ∷ members_next next

    pub members_next : Components S → List (Member S)
    members_next no_next = []
    members_next (and_next n next) = members n ++ members_next next

  pub any_pending : Ops S → List (Member S) → Bool
  any_pending ops [] = false
  any_pending ops (c ∷ cs) = ops.pending_current c.state || any_pending ops cs

  any_pending-append :
      (ops : Ops S) (xs ys : List (Member S))
      → any_pending ops (xs ++ ys) ≡ (any_pending ops xs || any_pending ops ys)
  unfolding any_pending
  any_pending-append ops [] ys = refl
  any_pending-append ops (c ∷ cs) ys = ground (arith, any_pending-append ops cs ys)

  mutual
    unfolding members pending any_pending

    -- A component is pending exactly when one of those of its tree is.
    pub pending-any : (ops : Ops S) (c : Component S) → pending ops c ≡ any_pending ops (members c)
    pending-any ops (component c next) =
        ap (λ b. ops.pending_current c.state || b) (pending_next-any ops next)

    pending_next-any :
        (ops : Ops S) (next : Components S)
        → pending_next ops next ≡ any_pending ops (members_next next)
    pending_next-any ops no_next = refl
    pending_next-any ops (and_next n next) =
        ap (λ b. b || pending_next ops next) (pending-any ops n)
        ∙ ap (λ b. any_pending ops (members n) || b) (pending_next-any ops next)
        ∙ sym (any_pending-append ops (members n) (members_next next))

  -- A component that has been drained throws when it is drained again.
  pub drain-twice :
      (ops : Ops S) (c : Component S) → Partial (λ d. drain ops d ≡ err drain_twice) (drain ops c)
  unfolding drain
  drain-twice ops (component c next) = elim (Bool-cases c.is_draining) [
    | inl already ↦ rw already thrown
    | inr first ↦ rw first (
        Partial-bind (Partial-any (ops.drain_current c.state))
          (λ s t. Partial-bind (Partial-any (drain_next ops next)) (λ ds t. returned refl)))
  ]
