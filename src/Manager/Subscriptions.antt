-- ===== src/Manager/Subscriptions.antt =====
-- core/manager.go: when a subscription is due, `dueSubscriptionProviders` and
-- `markSubscriptionUpdated`.
pub mod Due
use oneagent.Prelude.{
  ℕ, suc, ◌-◌, ◌*◌, ◌%◌, String, Bool, true, false, not, ◌&&◌, List, [], ◌∷◌, Option, none, some, ℤ,
  pos, negsuc, ltℤ, ltb, ◌==◌, if◌then◌else◌, Dict, insert, lookup,
}
use oneagent.Config.Types.{ProxyProviderConfig, Config}
use oneagent.Exec.{◌>>=◌, ◌>>◌, pure, get}
use oneagent.Manager.State.{Manager, Method}
use oneagent.Manager.Commit.{update}

-- The interval in seconds; an hour where it is not positive.
pub interval_of : ProxyProviderConfig → ℕ
interval_of provider = elim provider.interval [
  | pos n ↦ if ltb n 1 then 3600 else n
  | negsuc n ↦ 3600
]

-- `time.Duration(interval) * time.Second`, in nanoseconds and 64 bits.
duration : ℕ → ℤ
duration seconds =
    let bits = seconds * 1000000000 % 18446744073709551616 in
    if ltb bits 9223372036854775808 then pos bits else negsuc (18446744073709551615 - bits)

-- The clock has not gone back since the time that is stored.
is_due : ℕ → Option ℕ → ProxyProviderConfig → Bool
is_due now none provider = true
is_due now (some last) provider =
    not (ltℤ (pos ((now - last) * 1000000000)) (duration (interval_of provider)))

-- The loop: the providers that are due, and the map behind it.
due_loop : ℕ → List ProxyProviderConfig → Dict ℕ → List ProxyProviderConfig × Dict ℕ
due_loop now [] subscriptions = ([], subscriptions)
due_loop now (provider ∷ providers) subscriptions =
    let due =
      not (provider.url == "") && is_due now (lookup provider.name subscriptions) provider in
    let (rest, marked) =
      due_loop now providers
        (if due then insert provider.name now subscriptions else subscriptions) in
    (if due then provider ∷ rest else rest, marked)

-- `dueSubscriptionProviders`
unfoldable pub due_subscription_providers : Method (List ProxyProviderConfig)
unfolding due_loop is_due interval_of duration
due_subscription_providers = do
  s ← get
  let (due, marked) = due_loop s.world.clock s.self.cfg.mihomo.providers s.self.subscriptions
  update (λ m. record m { subscriptions = marked })
  pure due

-- `markSubscriptionUpdated`
unfoldable pub mark_subscription_updated : String → Method (Unit {0})
mark_subscription_updated name = do
  s ← get
  update (λ m.
      if name == ""
      then m
      else record m { subscriptions = insert name s.world.clock m.subscriptions })
