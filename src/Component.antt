-- ===== src/Component.antt =====
-- src/general/controller.h: `drain` and `pending` down the tree of components. A component is the state
-- of its controller with what it passes on to; its own part of a call (`drain_current`,
-- `pending_current`) is a parameter: in no controller of the program does that part reach the
-- components below.
pub mod Walk
use vans.Base.{ℕ, Bool, true, false, ◌||◌, if◌then◌else◌, Result, ok, err, ◌>>=◌, drain_twice}

pub record Ops (S : Type 0) : Type 0 where
  pub drain_current : S → Result S
  pub pending_current : S → Bool

-- `memory_controller`, with `is_draining`.
pub record Member (S : Type 0) : Type 0 where
  pub state : S
  pub is_draining : Bool

module _ (S : Type 0) where
  mutual
    pub data Component : Type 0 where
      component : Member S → Components → Component

    pub data Components : Type 0 where
      no_next : Components
      and_next : Component → Components → Components

module _ {S : Type 0} (ops : Ops S) where
  unfoldable mutual
    pub drain : Component S → Result (Component S)
    drain (component c next) =
        let deeper = drain_next next in
        if c.is_draining
        then err drain_twice
        else (ops.drain_current c.state >>= λ s.
            deeper >>= λ drained. ok (component (record { state = s; is_draining = true }) drained))

    pub drain_next : Components S → Result (Components S)
    drain_next no_next = ok no_next
    drain_next (and_next n next) =
        drain n >>= λ n'. drain_next next >>= λ next'. ok (and_next n' next')

  unfoldable mutual
    pub pending : Component S → Bool
    pending (component c next) = ops.pending_current c.state || pending_next next

    -- `std::any_of`
    pub pending_next : Components S → Bool
    pending_next no_next = false
    pending_next (and_next n next) = pending n || pending_next next
