-- ===== src/Options/Valid.antt =====
-- What a successful Options.resolve of options.go guarantees.
use pgstore.Prelude.{
  ℕ, ◌≤◌, ◌<◌, ◌≡◌, ◌⊎◌, refl, Bool, true, false, Option, none, some, List, [], ◌∷◌, String, arith,
  ltb, leb, if◌then◌else◌,
}
use pgstore.Prelude.Int.{ℤ, pos, negsuc}
use pgstore.Text.{Text, codes, text_eq, text_eq_iff}
use pgstore.Errors.{Result, ok, err}
use pgstore.Options.{
  Options, Network, PoolConfig, ResolvedOptions, resolve, resolve_timeout, resolve_max_conns,
  resolve_min_conns, resolve_identifier, validate_tls, valid_identifier, is_loopback_host,
  is_secure, is_blank, refuse_if, or_invalid, without_param, pooled, millisecond, ◌>>=◌,
}

abbrev Holds : {A : Type 0} → (A → Type 0) → Result A → Type 0
Holds P (ok a) = P a
Holds P (err e) = Unit

-- A result, if there is one, meets `P`.
record Ok {A : Type 0} (P : A → Type 0) (m : Result A) : Type 0 where
  holds : Holds P m

Ok-bind :
    {A B : Type 0} {P : A → Type 0} {Q : B → Type 0} (m : Result A) (f : A → Result B)
    → Ok P m
    → ((a : A) → P a → Ok Q (f a))
    → Ok Q (m >>= f)
Ok-bind (ok a) f p q = q a p.holds
Ok-bind (err e) f p q = record { holds = tt }

Ok-result : {A : Type 0} (P : A → Type 0) (m : Result A) (a : A) → Ok P m → m ≡ ok a → P a
Ok-result P m a t e = rw e at t.holds

refuse_if-Ok : (b : Bool) (field reason : String) → Ok (λ _. b ≡ false) (refuse_if b field reason)
refuse_if-Ok true field reason = record { holds = tt }
refuse_if-Ok false field reason = record { holds = refl }

resolve_timeout-Ok :
    (field : String) (requested : ℤ) (fallback : ℕ)
    → millisecond ≤ fallback
    → Ok (λ n. millisecond ≤ n) (resolve_timeout field requested fallback)
unfolding resolve_timeout
resolve_timeout-Ok field (negsuc n) fallback h = record { holds = tt }
resolve_timeout-Ok field (pos n) fallback h = record { holds = ground arith }

resolve_max_conns-Ok : (requested : ℤ) → Ok (λ n. 1 ≤ n) (resolve_max_conns requested)
unfolding resolve_max_conns
resolve_max_conns-Ok (negsuc n) = record { holds = tt }
resolve_max_conns-Ok (pos n) = record { holds = ground arith }

resolve_min_conns-Ok :
    (requested : ℤ) (top : ℕ) → Ok (λ n. n ≤ top) (resolve_min_conns requested top)
unfolding resolve_min_conns
resolve_min_conns-Ok (negsuc n) top = record { holds = tt }
resolve_min_conns-Ok (pos n) top = record { holds = ground arith }

resolve_identifier-Ok :
    (field reason : String) (requested fallback : Text) (max_bytes : ℕ)
    → Ok
        (λ name. valid_identifier name max_bytes ≡ true)
        (resolve_identifier field reason requested fallback max_bytes)
unfolding resolve_identifier
resolve_identifier-Ok field reason requested fallback max_bytes = record { holds = ground arith }

-- The connection is verified TLS, or plaintext that the caller allowed, to a loopback host.
abbrev pub IsProtected : Network → Bool → PoolConfig → Type 0
IsProtected net allowed config =
    (is_secure config.tls ≡ true)
    ⊎ ((allowed ≡ true) × (is_loopback_host net config.host ≡ true) × (config.tls ≡ none))

validate_tls-Ok :
    (net : Network) (config : PoolConfig) (allowed : Bool)
    → Ok (λ _. IsProtected net allowed config) (validate_tls net config allowed)
unfolding validate_tls
validate_tls-Ok net config allowed = record { holds = ground arith }

or_invalid-Ok : (c : Option PoolConfig) → Ok (λ config. c ≡ some config) (or_invalid c)
or_invalid-Ok none = record { holds = tt }
or_invalid-Ok (some config) = record { holds = refl }

abbrev pub find_param : Text → List (Text × Text) → Option Text
find_param name [] = none
find_param name ((k, v) ∷ ps) = if text_eq k name then some v else find_param name ps

find-without_param :
    (name j : Text) (ps : List (Text × Text))
    → find_param j (without_param name ps) ≡ (if text_eq name j then none else find_param j ps)
unfolding without_param
find-without_param name j [] = ground arith
find-without_param name j ((k, v) ∷ ps) =
    ground
      (arith, find-without_param name j ps, text_eq_iff k name, text_eq_iff k j, text_eq_iff name j)

unset_last :
    (name : Text) (ps : List (Text × Text)) → find_param name (without_param name ps) ≡ none
unset_last name ps = ground (arith, find-without_param name name ps, text_eq_iff name name)

unset :
    (name last : Text) (ps : List (Text × Text))
    → find_param name (without_param last (without_param name ps)) ≡ none
unset name last ps =
    ground (arith, find-without_param last name (without_param name ps), unset_last name ps)

pub record IsValid (net : Network) (o : Options) (r : ResolvedOptions) : Type 0 where
  pub protected : IsProtected net o.allow_insecure_localhost_only r.pool_config
  pub pool_nonempty : 1 ≤ r.max_conns
  pub pool_bounds : r.min_conns ≤ r.max_conns
  pub pool_config_bounds :
      (r.pool_config.min_conns ≡ r.min_conns) × (r.pool_config.max_conns ≡ r.max_conns)
  pub schema : valid_identifier r.schema 63 ≡ true
  pub table_prefix : valid_identifier r.table_prefix 40 ≡ true
  pub statement_timeout : millisecond ≤ r.statement_timeout
  pub lock_timeout : (millisecond ≤ r.lock_timeout) × (r.lock_timeout ≤ r.statement_timeout)
  pub renewal : (millisecond ≤ r.lease_renew_interval) × (r.lease_renew_interval < r.lease_ttl)
  pub operation_timeout : millisecond ≤ r.operation_timeout
  pub migrations : r.migrations ≤ 2
  pub no_session_timeouts :
      (find_param (codes "statement_timeout") r.pool_config.runtime_params ≡ none)
      × (find_param (codes "lock_timeout") r.pool_config.runtime_params ≡ none)

resolve-Ok : (net : Network) (o : Options) → Ok (IsValid net o) (resolve net o)
unfolding resolve pooled
resolve-Ok net o =
    Ok-bind (refuse_if (is_blank o.dsn) _ _) _ (refuse_if-Ok (is_blank o.dsn) _ _) λ _ _.
      Ok-bind (or_invalid (net.parse_config o.dsn)) _ (or_invalid-Ok _) λ config _.
        Ok-bind (validate_tls net config o.allow_insecure_localhost_only) _
          (validate_tls-Ok net config _)
          λ _ protected.
            Ok-bind (resolve_max_conns o.max_conns) _ (resolve_max_conns-Ok _) λ top nonempty.
              Ok-bind (resolve_min_conns o.min_conns top) _ (resolve_min_conns-Ok _ top)
                λ low bounds.
                  Ok-bind (resolve_identifier _ _ o.schema _ _) _ (resolve_identifier-Ok _ _ _ _ _)
                    λ schema named.
                      Ok-bind (resolve_identifier _ _ o.table_prefix _ _) _
                        (resolve_identifier-Ok _ _ _ _ _)
                        λ prefix prefixed.
                          Ok-bind (resolve_timeout _ o.statement_timeout _) _
                            (resolve_timeout-Ok _ _ _ (omega arith))
                            λ statement st.
                              Ok-bind (resolve_timeout _ o.lock_timeout _) _
                                (resolve_timeout-Ok _ _ _ (omega arith))
                                λ lock lt.
                                  Ok-bind (refuse_if (ltb statement lock) _ _) _
                                    (refuse_if-Ok _ _ _)
                                    λ _ lock_le.
                                      Ok-bind (resolve_timeout _ o.lease_ttl _) _
                                        (resolve_timeout-Ok _ _ _ (omega arith))
                                        λ ttl tt_le.
                                          Ok-bind (resolve_timeout _ o.lease_renew_interval _) _
                                            (resolve_timeout-Ok _ _ _ (omega arith))
                                            λ renew rn.
                                              Ok-bind (refuse_if (leb ttl renew) _ _) _
                                                (refuse_if-Ok _ _ _)
                                                λ _ renew_lt.
                                                  Ok-bind
                                                    (resolve_timeout _ o.default_operation_timeout
                                                      _)
                                                    _ (resolve_timeout-Ok _ _ _ (omega arith))
                                                    λ op op_le.
                                                      Ok-bind (refuse_if (ltb 2 o.migrations) _ _) _
                                                        (refuse_if-Ok _ _ _)
                                                        λ _ mode. record {
                                                          holds = record {
                                                            protected = protected;
                                                            pool_nonempty = nonempty;
                                                            pool_bounds = bounds;
                                                            pool_config_bounds = (refl, refl);
                                                            schema = named;
                                                            table_prefix = prefixed;
                                                            statement_timeout = st;
                                                            lock_timeout = (lt, ground arith);
                                                            renewal = (rn, ground arith);
                                                            operation_timeout = op_le;
                                                            migrations = ground arith;
                                                            no_session_timeouts = (
                                                            unset (codes "statement_timeout")
                                                            (codes "lock_timeout")
                                                            config.runtime_params,
                                                            unset_last (codes "lock_timeout") (
                                                            without_param
                                                            (codes "statement_timeout")
                                                            config.runtime_params),
                                                            );
                                                          };
                                                        }

-- Options that resolve are within their bounds: a protected connection, a pool of at least one
-- connection and MinConns at most MaxConns, valid identifiers of at most 63 and 40 bytes, every
-- timeout a millisecond at least, LockTimeout at most StatementTimeout, LeaseRenewInterval below
-- LeaseTTL, a known migration mode, and no session timeouts left in the pool's configuration.
pub resolve-IsValid :
    (net : Network) (o : Options) (r : ResolvedOptions) → resolve net o ≡ ok r → IsValid net o r
resolve-IsValid net o r h = Ok-result (IsValid net o) (resolve net o) r (resolve-Ok net o) h
