-- ===== src/Events.antt =====
-- ais_server/events.py: the bus between the pipeline and the web pages. A subscriber is known by a
-- number; what it does with a payload, an exception included, does not reach the bus.
pub mod Recent
mod Tests
use ais_server.Prelude.{
  ℕ, zero, suc, ◌+◌, ◌-◌, Option, none, some, List, [], ◌∷◌, ◌++◌, nat_eq, length, drop,
}
use ais_server.Prelude.Text.{Text, text_eq}
use ais_server.Prelude.Int.{ℤ, pos, negsuc}
use ais_server.Prelude.Dict
use ais_server.Prelude.Dict.{Dict}

pub record EventBus (P : Type 0) : Type 0 where
  pub subs : Dict Text (List ℕ)
  pub rings : Dict Text (List P)
  pub ring_size : ℕ

unfoldable pub or_empty {ℓ} : {A : Type ℓ} → Option (List A) → List A
or_empty none = []
or_empty (some xs) = xs

-- `append` of a `deque` with a `maxlen`
unfoldable pub ring_append {ℓ} : {A : Type ℓ} → ℕ → List A → A → List A
ring_append maxlen ring x = let longer = ring ++ x ∷ [] in drop (length longer - maxlen) longer

-- `xs[-n:]`
unfoldable pub last_slice {ℓ} : {A : Type ℓ} → ℤ → List A → List A
last_slice (pos zero) xs = xs
last_slice (pos (suc n)) xs = drop (length xs - suc n) xs
last_slice (negsuc n) xs = drop (suc n) xs

module _ {P : Type 0} where
  unfoldable pub new : ℕ → EventBus P
  new ring_size = record { subs = []; rings = []; ring_size = ring_size }

  unfoldable pub subscribe : EventBus P → Text → ℕ → EventBus P
  unfolding or_empty
  subscribe b topic callback = record b {
    subs = Dict.put b.subs topic (or_empty (Dict.get b.subs topic) ++ callback ∷ []);
  }

  -- The second result is the callbacks that are run with the payload, in order.
  unfoldable pub publish : EventBus P → Text → P → EventBus P × List ℕ
  unfolding or_empty ring_append
  publish b topic payload =
      let subs = or_empty (Dict.get b.subs topic) in
      let ring = ring_append b.ring_size (or_empty (Dict.get b.rings topic)) payload in
      (record b { rings = Dict.put b.rings topic ring }, subs)

  unfoldable pub recent : EventBus P → Text → ℤ → List P
  unfolding or_empty last_slice
  recent b topic n = last_slice n (or_empty (Dict.get b.rings topic))
