-- ===== src/Gateway/Reconciler/Rounds/Provisioning.antt =====
-- What Reconcile of gateway/reconcile.go applies and reports for a rendered route table.
use tsjwt.Gateway.{Gateway}
use tsjwt.Gateway.Rules.{RouteError}
use tsjwt.Gateway.Provision.{Config}
use tsjwt.Gateway.Provision.Workload.{StatefulSet, stateful_set}
use tsjwt.Gateway.Reconciler.{
  GatewayObject, Provisioned, workload, gateway_status, Step, first_steps, workload_step,
}
use tsjwt.Gateway.Reconciler.Rounds.{Client, apply_steps, finish, with_workload}
use tsjwt.Gateway.Reconciler.Rounds.Chain.{
  IsPrefix, IsPrefix-append, IsPrefix-after, IsPrefix-map, All-IsPrefix, Applies, Applies-append,
  RanThrough, apply_steps-RanThrough, apply_one,
}
use tsjwt.Gateway.Reconciler.Rounds.Wanted.{
  wanted, created, IsRestoring, first_steps-wanted, first_steps-IsRestoring,
  workload_step-IsRestoring, All-append, six_created,
}
use tsjwt.RouteTable.{RouteFile}
use tsjwt.GoTime.{Instant, Duration}
use tsjwt.Errors.{Result, err, ok}
use tsjwt.Prelude.{All, Text, ℕ, ◌≡◌, refl, sym, ap, ◌∙◌, subst, Option, List, [], ◌∷◌, ◌++◌, map}

module _ {W : Type 0} (client : Client W) where
  module _ (parse_url : Text → Option Text) (parse_duration : Text → Option Duration)
      (detail : RouteError → Text) (render_text : RouteFile → Text) (now : Instant) (cfg : Config)
      (tenants : Text) where
    -- The StatefulSet, if there is one.
    abbrev pub wanted_workload : Result StatefulSet → List Provisioned
    wanted_workload (err e) = []
    wanted_workload (ok want) = workload want ∷ []

    -- The steps that were applied, from this world on, are for the first of the six objects.
    pub record Carries (gw : Gateway) (text : Text) (start : W) (done : List Step) : Type 0 where
      pub stop : W
      pub applied : Applies client gw start done stop
      pub in_order :
          IsPrefix
            (map created done)
            (wanted gw text ++ wanted_workload (stateful_set parse_duration gw cfg tenants))
      pub restoring : All IsRestoring done

    -- A round that succeeded applied all six, and then wrote the status, for this number of routes and the ready
    -- replicas that the apply of the StatefulSet reported.
    pub record Completes (g : GatewayObject) (count : ℕ) (text : Text) (start : W)
        (a : Result (Unit {0}) × W × List Step) : Type 0 where
      pub want : StatefulSet
      pub built : stateful_set parse_duration g.gateway cfg tenants ≡ ok want
      pub before : List Step
      pub last : Step
      pub steps_ok : a.2 ≡ before ++ last ∷ []
      pub all_six : map created a.2 ≡ wanted g.gateway text ++ workload want ∷ []
      pub between : W
      pub applied : Applies client g.gateway start before between
      pub after : W
      pub ready : ℕ
      pub last_applied : client.create_or_update between g.gateway last ≡ (ok ready, after)
      pub reported : client.update_gateway after (gateway_status now g ready count) ≡ (ok tt, a.1)

    -- What a round from a world on, for a table of this many routes and its text, comes to.
    abbrev pub Lands : GatewayObject → ℕ → Text → W → Result (Unit {0}) × W × List Step → Type 0
    Lands g count text start a =
        Carries g.gateway text start a.2 × (a.0 ≡ ok tt → Completes g count text start a)

    carries :
        (gw : Gateway) (text : Text) (start stop : W) (done : List Step) (want : StatefulSet)
        → stateful_set parse_duration gw cfg tenants ≡ ok want
        → Applies client gw start done stop
        → IsPrefix done (first_steps gw text ++ workload_step want ∷ [])
        → Carries gw text start done
    carries gw text start stop done want built chain prefix = record {
      stop = stop;
      applied = chain;
      in_order = rw built (
          subst (λ (l : List Provisioned). IsPrefix (map created done) l) (six_created gw text want)
            (IsPrefix-map created done (first_steps gw text ++ workload_step want ∷ []) prefix));
      restoring =
          All-IsPrefix IsRestoring done (first_steps gw text ++ workload_step want ∷ []) prefix (
            All-append IsRestoring (first_steps gw text) (workload_step want ∷ [])
              (first_steps-IsRestoring gw text) (workload_step-IsRestoring want, tt));
    }

    carries_first :
        (gw : Gateway) (text : Text) (start stop : W) (done : List Step)
        → Applies client gw start done stop
        → IsPrefix done (first_steps gw text)
        → Carries gw text start done
    carries_first gw text start stop done chain prefix = record {
      stop = stop;
      applied = chain;
      in_order = IsPrefix-append (map created done) (wanted gw text) _ (
          subst (λ (l : List Provisioned). IsPrefix (map created done) l)
            (first_steps-wanted gw text) (IsPrefix-map created done (first_steps gw text) prefix));
      restoring =
          All-IsPrefix IsRestoring done (first_steps gw text) prefix
            (first_steps-IsRestoring gw text);
    }

    finished :
        (g : GatewayObject) (count : ℕ) (text : Text) (want : StatefulSet) (start w : W)
        (b : Result ℕ × W × List Step)
        → stateful_set parse_duration g.gateway cfg tenants ≡ ok want
        → Applies client g.gateway start (first_steps g.gateway text) w
        → RanThrough client g.gateway w (workload_step want ∷ []) b
        → ((n : ℕ)
            → b.0 ≡ ok n
            → client.create_or_update w g.gateway (workload_step want) ≡ (ok n, b.1))
        → Lands g count text start (
            finish client parse_url parse_duration detail render_text now cfg tenants g count b
              (first_steps g.gateway text))
    unfolding finish
    finished g count text want start w (err e, u, last) built first ran called =
        let (v, chain, prefix, whole) = ran in
        (
          carries g.gateway text start v (first_steps g.gateway text ++ last) want built
              (Applies-append client g.gateway start w v (first_steps g.gateway text) last first
                chain)
              (IsPrefix-after (first_steps g.gateway text) last (workload_step want ∷ []) prefix),
          λ h. absurd (cc h),
        )
    finished g count text want start w (ok n, u, last) built first ran called =
        let (v, chain, prefix, whole) = ran in
        let (all, ends) = whole n refl in
        (
          carries g.gateway text start v (first_steps g.gateway text ++ last) want built
              (Applies-append client g.gateway start w v (first_steps g.gateway text) last first
                chain)
              (IsPrefix-after (first_steps g.gateway text) last (workload_step want ∷ []) prefix),
          λ h. record {
            want = want;
            built = built;
            before = first_steps g.gateway text;
            last = workload_step want;
            steps_ok = ap (λ (l : List Step). first_steps g.gateway text ++ l) all;
            all_six =
                ap (λ (l : List Step). map created (first_steps g.gateway text ++ l)) all
                ∙ six_created g.gateway text want;
            between = w;
            applied = first;
            after = u;
            ready = n;
            last_applied = called n refl;
            reported = reports (client.update_gateway u (gateway_status now g n count)) h;
          },
        )
      where
        reports : (r : Result (Unit {0}) × W) → r.0 ≡ ok tt → r ≡ (ok tt, r.1)
        reports (x, v) e = ap (λ (y : Result (Unit {0})). (y, v)) e

    pub with_workload-Lands :
        (g : GatewayObject) (count : ℕ) (text : Text) (want : Result StatefulSet) (start : W)
        (a : Result ℕ × W × List Step)
        → stateful_set parse_duration g.gateway cfg tenants ≡ want
        → RanThrough client g.gateway start (first_steps g.gateway text) a
        → Lands g count text start (
            with_workload client parse_url parse_duration detail render_text now cfg tenants g count
              want a)
    unfolding with_workload
    with_workload-Lands g count text want start (err e, w, done) built ran =
        let (v, chain, prefix, whole) = ran in
        (carries_first g.gateway text start v done chain prefix, λ h. absurd (cc h))
    with_workload-Lands g count text (err e) start (ok n, w, done) built ran =
        let (v, chain, prefix, whole) = ran in
        (carries_first g.gateway text start v done chain prefix, λ h. absurd (cc h))
    with_workload-Lands g count text (ok want) start (ok n, w, done) built ran =
        let (v, chain, prefix, whole) = ran in
        let (all, ends) = whole n refl in
        let first : Applies client g.gateway start (first_steps g.gateway text) w =
          subst (λ (l : List Step). Applies client g.gateway start l w) all
            (subst (λ (x : W). Applies client g.gateway start done x) ends chain) in
        subst
          (λ (l : List Step). Lands g count text start (
            finish client parse_url parse_duration detail render_text now cfg tenants g count
              (apply_steps client g.gateway 0 (workload_step want ∷ []) w) l))
          (sym all)
          (finished g count text want start w
            (apply_steps client g.gateway 0 (workload_step want ∷ []) w) built first
            (apply_steps-RanThrough client g.gateway 0 (workload_step want ∷ []) w)
            (apply_one client g.gateway (workload_step want) 0 w))
