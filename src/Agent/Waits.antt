-- ===== src/Agent/Waits.antt =====
-- The flags of the agent: nothing is applied before every kind of object was received, and the first
-- sync after that takes everything that is pending.
use enn_policy.Prelude.{
  ◌≡◌, refl, sym, ap, ◌∙◌, Bool, true, false, ◌&&◌, not, arith, if◌then◌else◌, Option-cases, inl,
  inr, Bool-cases,
}
use enn_policy.IpSet.{IpSet}
use enn_policy.PolicyInfo.{NetworkPolicyMap}
use enn_policy.Rules.{Env, RuleState}
use enn_policy.Ranges.{ensure_flannel_net_set, ensure_ip_range_set}
use enn_policy.Agent.{
  TableInterface, Agent, new_enn_policy, SyncType, sync_all, sync_network_policy, sync_pod,
  sync_namespace, with_kernel, all_synced, take_policy_changes, take_first_changes,
  ensure_enn_entry, sync_case, sync_ensured, sync_enn_policy,
}
use enn_policy.Agent.Reach.{
  Step, pod_noted, namespace_noted, policy_noted, pods_received, namespaces_received,
  policies_received, synced, Reaches, started, then_step,
}

abbrev pub Flags : Type 0
Flags = Bool × Bool × Bool × Bool

abbrev pub flags_of : {S : Type 0} → Agent S → Flags
flags_of a = (a.initialized, a.network_policy_synced, a.pod_synced, a.namespace_synced)

-- the state of the rules, the policies and whether the first sync is still to come
abbrev pub applied_of : {S : Type 0} → Agent S → RuleState S × NetworkPolicyMap × Bool
applied_of a = (a.rules, a.network_policy_map, a.init_all_synced)

module _ {S : Type 0} (env : Env S) (tables : TableInterface S) where
  sync_case-flags :
      (t : SyncType) (i j : IpSet) (a : Agent S)
      → flags_of (sync_case env tables t i j a) ≡ flags_of a
  unfolding sync_case take_policy_changes
  sync_case-flags sync_all i j a = refl
  sync_case-flags sync_network_policy i j a = refl
  sync_case-flags sync_pod i j a = refl
  sync_case-flags sync_namespace i j a = refl

  if-flags :
      (b : Bool) (a p q : Agent S)
      → flags_of p ≡ flags_of a
      → flags_of q ≡ flags_of a
      → flags_of (if b then p else q) ≡ flags_of a
  if-flags true a p q h k = h
  if-flags false a p q h k = k

  sync_ensured-flags :
      (t : SyncType) (i j : IpSet) (a : Agent S)
      → flags_of (sync_ensured env tables t i j a) ≡ flags_of a
  unfolding sync_ensured take_first_changes take_policy_changes
  sync_ensured-flags t i j a =
      let first = sync_case env tables sync_all i j (take_first_changes a) in
      let later = sync_case env tables t i j a in
      if-flags (not (all_synced a)) a a (if a.init_all_synced then first else later) refl (
        if-flags a.init_all_synced a first later
          (sync_case-flags sync_all i j (take_first_changes a)) (sync_case-flags t i j a))

  -- before everything was received, only the state of the host changes
  sync_ensured-waits :
      (t : SyncType) (i j : IpSet) (a : Agent S)
      → all_synced a ≡ false
      → sync_ensured env tables t i j a ≡ a
  unfolding sync_ensured
  sync_ensured-waits t i j a h = rw (sync_ensured, h) refl

  -- The flags stay, and before everything was received only the state of the host changes.
  record Synced (a q : Agent S) : Type 0 where
    flags : flags_of q ≡ flags_of a
    waits : all_synced a ≡ false → q ≡ with_kernel a q.rules.policy.kernel

  with_kernel-Synced : (a : Agent S) (s : S) → Synced a (with_kernel a s)
  with_kernel-Synced a s = record { flags = refl; waits = λ h. refl }

  sync_ensured-Synced :
      (t : SyncType) (i j : IpSet) (a : Agent S) (s : S)
      → Synced a (sync_ensured env tables t i j (with_kernel a s))
  sync_ensured-Synced t i j a s = record {
    flags = sync_ensured-flags t i j (with_kernel a s);
    waits = λ h. rw (sync_ensured-waits t i j (with_kernel a s) h) refl;
  }

  sync_enn_policy-Synced : (t : SyncType) (a : Agent S) → Synced a (sync_enn_policy env tables t a)
  unfolding sync_enn_policy
  sync_enn_policy-Synced t a =
      let s = (ensure_enn_entry env tables a.rules.policy.kernel).0 in
      let r1 = ensure_flannel_net_set env s in
      let r2 = ensure_ip_range_set env r1.0 in
      elim (Bool-cases (ensure_enn_entry env tables a.rules.policy.kernel).1) [
        | inl e ↦ rw (sync_enn_policy, e) (with_kernel-Synced a s)
        | inr e ↦ elim (Option-cases r1.1) [
          | inl f ↦ rw (sync_enn_policy, e, f) (with_kernel-Synced a r1.0)
          | inr (j, f) ↦ elim (Option-cases r2.1) [
            | inl g ↦ rw (sync_enn_policy, e, f, g) (with_kernel-Synced a r2.0)
            | inr (i, g) ↦ rw (sync_enn_policy, e, f, g) (sync_ensured-Synced t i j a r2.0)
          ]
        ]
      ]

  module _ (s : S) where
    record Waits (a : Agent S) : Type 0 where
      flags : a.initialized ≡ all_synced a
      waiting : all_synced a ≡ false → applied_of (with_kernel a s) ≡ applied_of (new_enn_policy s)

    Synced-Waits : (a q : Agent S) → Synced a q → Waits a → Waits q
    Synced-Waits a q y w =
        let same : all_synced q ≡ all_synced a = ap (λ f. f.1 && (f.2 && f.3)) y.flags in
        record {
          flags = ap (λ f. f.0) y.flags ∙ (w.flags ∙ sym same);
          waiting = λ h.
              ap (λ b. applied_of (with_kernel b s)) (y.waits (sym same ∙ h))
              ∙ w.waiting (sym same ∙ h);
        }

    Step-Waits : (a b : Agent S) → Step env tables a b → Waits a → Waits b
    Step-Waits a _ (pod_noted _ name old new) w = record { flags = w.flags; waiting = w.waiting }
    Step-Waits a _ (namespace_noted _ name old new) w = record {
      flags = w.flags;
      waiting = w.waiting;
    }
    Step-Waits a _ (policy_noted _ name old new changes pending e) w = record {
      flags = w.flags;
      waiting = w.waiting;
    }
    Step-Waits a _ (pods_received _) w = record {
      flags = refl;
      waiting = λ h. w.waiting (ground arith);
    }
    Step-Waits a _ (namespaces_received _) w = record {
      flags = refl;
      waiting = λ h. w.waiting (ground arith);
    }
    Step-Waits a _ (policies_received _) w = record {
      flags = refl;
      waiting = λ h. w.waiting (ground arith);
    }
    Step-Waits a _ (synced t _) w =
        Synced-Waits a (sync_enn_policy env tables t a) (sync_enn_policy-Synced t a) w

    reached : (a : Agent S) → Reaches env tables s a → Waits a
    reached _ started = record { flags = refl; waiting = λ h. refl }
    reached _ (then_step a b r step) = Step-Waits a b step (reached a r)

  -- In every state that the agent gets to, it counts as initialized exactly when the first lists of
  -- policies, pods and namespaces were all received.
  pub Reaches-all_synced :
      (s : S) (a : Agent S) → Reaches env tables s a → a.initialized ≡ all_synced a
  Reaches-all_synced s a r = (reached s a r).flags

  -- In every state that the agent gets to before the first lists of policies, pods and namespaces were
  -- all received, by whatever steps of its handlers and whatever syncs, in whatever order: no policy is
  -- applied, the maps, tables, chains and rules are as after the construction, and only the state of
  -- the host may differ; and the first sync is still to come.
  pub Reaches-waits :
      (s : S) (a : Agent S)
      → Reaches env tables s a
      → all_synced a ≡ false
      → applied_of (with_kernel a s) ≡ applied_of (new_enn_policy s)
  Reaches-waits s a r h = (reached s a r).waiting h
