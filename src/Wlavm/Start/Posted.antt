-- ===== src/Wlavm/Start/Posted.antt =====
-- `Start` of a VM on an encrypted image returns true only after the Workload Service took its
-- trust report (wlavm/start.go, clients/workload_service_client.go).
use mathlib.Core.Path.{subst}
use workload_agent.Prelude.{
  String, Bool, false, ◌≡◌, sym, ◌⊎◌, inr, true, none, List, [], ◌∷◌, starts_with, arith,
}
use workload_agent.Association.{Association, create, save_image_vm_association}
use workload_agent.Association.Persistence.{WrapsErrors}
use workload_agent.Clients.{post_vm_report}
use workload_agent.Consts.{mount_path}
use workload_agent.Libvirt.{DomainParser, new_domain_parser, domain_parser, image_path_of, start}
use workload_agent.Types.{Bytes, Handle, Domain, ok}
use workload_agent.Wlavm.Start.{create_instance_trust_report, report_and_associate, start_vm}
use workload_agent.World.{Env, Call, State, xml_unmarshal, wls_post_vm_report}
use workload_agent.World.Confirms.{
  Proves, Succeeds, Then, confirms_rules, OnNext, NotTrue, Cautious,
}
use workload_agent.World.Go.{
  ◌>>=◌, invoke, modify, discard, returned, return, Flow, next, early, settle, continue,
}
use workload_agent.World.Keeps.{Keeps, keeps_rules}

module _ (env : Env) where
  -- Among the calls is a report that the Workload Service took without an error.
  abbrev pub Posted : List Call → Type 0
  Posted [] = ⊥
  Posted (wls_post_vm_report r ∷ t) = (env.answer (wls_post_vm_report r) t ≡ none) ⊎ Posted t
  Posted (_ ∷ t) = Posted t

  Posted-cons : (c : Call) (t : List Call) → Posted t → Posted (c ∷ t)
  Posted-cons (wls_post_vm_report r) t h = inr h
  Posted-cons _ t h = h

  abbrev HasPosted : State → Type 0
  HasPosted s = Posted s.trace

  Posted-invoke {ℓ} : {R : Type ℓ} (c : Call) → Keeps HasPosted (invoke {R = R} env c)
  unfolding invoke
  Posted-invoke c = record { at = λ s h. Posted-cons c s.trace h }

  Posted-modify {ℓ} :
      {R : Type ℓ} (f : State → State)
      → ((s : State) → (f s).trace ≡ s.trace)
      → Keeps HasPosted (modify {R = R} f)
  unfolding modify
  Posted-modify f same = record { at = λ s h. subst Posted (sym (same s)) h }

  Posted-discard : (c : Call) → Keeps HasPosted (discard env c)
  unfolding discard
  Posted-discard c = record { at = λ s h. Posted-cons c s.trace h }

  create-Posted : (a : Association) → Keeps HasPosted (create env a)
  unfolding create save_image_vm_association
  create-Posted a =
      search (keeps_rules, Posted-invoke, Posted-modify, Posted-discard) depth 60 fits 3000

  module _ (wraps : WrapsErrors env) where
    post-Posted : (report : Bytes) → Succeeds HasPosted (post_vm_report env report)
    unfolding post_vm_report ◌>>=◌
    post-Posted report = record { at = λ s. grind arith }

    trust_report-Posted :
        (manifest flavor : Handle) (signature : String)
        → Proves HasPosted (create_instance_trust_report env manifest flavor signature)
    unfolding create_instance_trust_report
    trust_report-Posted manifest flavor signature = search (confirms_rules, post-Posted) depth 40

    report_and_associate-Posted : (d : DomainParser) → Then HasPosted (report_and_associate env d)
    unfolding report_and_associate
    report_and_associate-Posted d =
        search (confirms_rules, keeps_rules, trust_report-Posted, create-Posted) depth 40

    continue-Posted :
        (r : Flow Bool (Unit {0}) × State)
        → OnNext HasPosted r
        → NotTrue r
        → (settle (continue r λ u. return true)).0 ≡ returned true
        → HasPosted (settle (continue r λ u. return true)).1
    unfolding return
    continue-Posted (next u, s) h q e = h
    continue-Posted (early true, s) h q e = absurd q
    continue-Posted (early false, s) h q e = cc
    continue-Posted (Flow.panicked, s) h q e = cc
    continue-Posted (Flow.exited n, s) h q e = cc

    report_and_associate-Cautious : (d : DomainParser) → Cautious (report_and_associate env d)
    unfolding report_and_associate
    report_and_associate-Cautious d = search confirms_rules depth 40

    -- `Start` of a domain that is parsed, on an encrypted image.
    start_vm-parsed :
        (xml : String) (domain : Domain) (s : State)
        → env.answer (xml_unmarshal xml) s.trace ≡ ok domain
        → starts_with (image_path_of start domain) mount_path ≡ true
        → start_vm env xml s
          ≡ settle (
              continue
                (report_and_associate env
                  (domain_parser xml start domain)
                  (record s { trace = xml_unmarshal xml ∷ s.trace }))
                (λ u. return true))
    unfolding start_vm new_domain_parser domain_parser ◌>>=◌
    start_vm-parsed xml domain s parses encrypted = rw (parses, encrypted)

    -- Where the domain's image lies in the crypto path and `Start` returns true, the Workload
    -- Service has taken a report.
    pub start_vm-Posted :
        (xml : String) (domain : Domain) (s : State)
        → env.answer (xml_unmarshal xml) s.trace ≡ ok domain
        → starts_with (image_path_of start domain) mount_path ≡ true
        → (start_vm env xml s).0 ≡ returned true
        → Posted (start_vm env xml s).1.trace
    start_vm-Posted xml domain s parses encrypted started =
        let eq = start_vm-parsed xml domain s parses encrypted in
        rw eq (
          continue-Posted _ ((report_and_associate-Posted (domain_parser xml start domain)).at _)
            ((report_and_associate-Cautious (domain_parser xml start domain)).at _)
            (rw eq at started))
