-- ===== src/Gossip/Runs.antt =====
-- What a step of gossip does to the rounds, one rule for each way to build an action.
use kitsune.Prelude.{Bool, true, false, Option, none, some, if◌then◌else◌, ◌≡◌, refl}
use kitsune.Prelude.Outcome.{Outcome, ok, err, panic}
use kitsune.OpStore.{OpStore}
use kitsune.Gossip.{K2Gossip}
use kitsune.Gossip.Host.{
  Host, World, Action, pure, lift, call, draw, reads, state, modify, ◌>>=◌, ◌>>◌,
}

-- From rounds with `P`, the action leads to rounds with `Q`, whatever its outcome.
pub record Runs {store : OpStore} {host : Host} {A : Type 0} (P Q : K2Gossip → Type 0)
    (m : Action store host A) : Type 0 where
  pub from : (w : World store host) → P w.gossip → Q (m w).1.gossip

module _ {store : OpStore} {host : Host} {A : Type 0} {P : K2Gossip → Type 0} where
  pub Runs-pure : (a : A) → Runs {store = store} {host = host} P P (pure a)
  unfolding pure
  Runs-pure a = record { from = λ w h. h }

  pub Runs-lift : (r : Outcome A) → Runs {store = store} {host = host} P P (lift r)
  unfolding lift
  Runs-lift r = record { from = λ w h. h }

  pub Runs-call :
      (f : host.State → Outcome A × host.State) → Runs {store = store} {host = host} P P (call f)
  unfolding call
  Runs-call f = record { from = λ w h. h }

  pub Runs-draw :
      (f : host.State → A × host.State) → Runs {store = store} {host = host} P P (draw f)
  unfolding draw
  Runs-draw f = record { from = λ w h. h }

  pub Runs-reads :
      (f : World store host → Outcome A) → Runs {store = store} {host = host} P P (reads f)
  unfolding reads
  Runs-reads f = record { from = λ w h. h }

module _ {store : OpStore} {host : Host} {A : Type 0} {P Q : K2Gossip → Type 0} where
  pub Runs-state :
      (f : K2Gossip → Outcome A × K2Gossip)
      → ((g : K2Gossip) → P g → Q (f g).1)
      → Runs {store = store} {host = host} P Q (state f)
  unfolding state
  Runs-state f h = record { from = λ w p. h w.gossip p }

module _ {store : OpStore} {host : Host} {P Q : K2Gossip → Type 0} where
  pub Runs-modify :
      (f : K2Gossip → K2Gossip)
      → ((g : K2Gossip) → P g → Q (f g))
      → Runs {store = store} {host = host} P Q (modify f)
  unfolding modify state
  Runs-modify f h = record { from = λ w p. h w.gossip p }

module _ {store : OpStore} {host : Host} {A B : Type 0} {R Q : K2Gossip → Type 0} where
  continued :
      (r : Outcome A) (f : A → Action store host B) (w : World store host)
      → ((a : A) → Runs R Q (f a))
      → ((g : K2Gossip) → R g → Q g)
      → R w.gossip
      → Q
          (elim r as (λ x. Outcome B × World store host) [
            | ok a ↦ f a w
            | err e ↦ (err e, w)
            | panic ↦ (panic, w)
          ]).1.gossip
  continued (ok a) f w k q h = (k a).from w h
  continued (err e) f w k q h = q w.gossip h
  continued panic f w k q h = q w.gossip h

module _ {store : OpStore} {host : Host} {A B : Type 0} {P R Q : K2Gossip → Type 0} where
  -- Both parts of a sequence, where the rounds after the first are already right for the whole.
  pub Runs-bind_weak :
      (m : Action store host A) (f : A → Action store host B)
      → Runs P R m
      → ((a : A) → Runs R Q (f a))
      → ((g : K2Gossip) → R g → Q g)
      → Runs P Q (m >>= f)
  unfolding ◌>>=◌
  Runs-bind_weak m f h k q = record { from = λ w p. continued (m w).0 f (m w).1 k q (h.from w p) }

module _ {store : OpStore} {host : Host} {A B : Type 0} {P : K2Gossip → Type 0} where
  pub Runs-bind :
      (m : Action store host A) (f : A → Action store host B)
      → Runs P P m
      → ((a : A) → Runs P P (f a))
      → Runs P P (m >>= f)
  Runs-bind m f h k = Runs-bind_weak m f h k (λ g p. p)

  pub Runs-then :
      (m : Action store host A) (n : Action store host B)
      → Runs P P m
      → Runs P P n
      → Runs P P (m >> n)
  unfolding ◌>>◌
  Runs-then m n h k = Runs-bind m (λ a. n) h (λ a. k)

module _ {store : OpStore} {host : Host} {B : Type 0} {P Q : K2Gossip → Type 0} where
  -- What follows a test of the rounds may use its result.
  pub Runs-test :
      (test : K2Gossip → Bool) (f : Bool → Action store host B)
      → ((b : Bool) → Runs (λ g. P g × (test g ≡ b)) Q (f b))
      → Runs P Q (reads (λ w. ok (test w.gossip)) >>= f)
  unfolding ◌>>=◌ reads
  Runs-test test f h = record { from = λ w p. (h (test w.gossip)).from w (p, refl) }

  pub Runs-implied :
      {P' : K2Gossip → Type 0} {m : Action store host B}
      → ((g : K2Gossip) → P g → P' g)
      → Runs P' Q m
      → Runs P Q m
  Runs-implied i h = record { from = λ w p. h.from w (i w.gossip p) }

-- The cases of an action on an option or a test.
module _ {store : OpStore} {host : Host} {A B : Type 0} {P Q : K2Gossip → Type 0} where
  pub Runs-option :
      (o : Option A) (m : Action store host B) (f : A → Action store host B)
      → Runs P Q m
      → ((a : A) → Runs P Q (f a))
      → Runs P Q (elim o [ none ↦ m | some a ↦ f a ])
  Runs-option none m f h k = h
  Runs-option (some a) m f h k = k a

module _ {store : OpStore} {host : Host} {B : Type 0} {P Q : K2Gossip → Type 0} where
  pub Runs-bool :
      (b : Bool) (m n : Action store host B)
      → Runs P Q m
      → Runs P Q n
      → Runs P Q (elim b [ true ↦ m | false ↦ n ])
  Runs-bool true m n h k = h
  Runs-bool false m n h k = k

  pub Runs-if :
      (b : Bool) (m n : Action store host B)
      → Runs P Q m
      → Runs P Q n
      → Runs P Q (if b then m else n)
  Runs-if true m n h k = h
  Runs-if false m n h k = k

pub ruleset quiet_rules = (
  Runs-pure, Runs-lift, Runs-call, Runs-draw, Runs-reads, Runs-bind, Runs-then, Runs-bool, Runs-if,
)
