-- ===== src/Rules/Ingress/Laws.antt =====
-- The chain behind one backend in internal/diagnosis/rules/ingress.
use kubewhy.Base.{
  ltb, ◌==◌, ◌≡◌, refl, ap, ◌∙◌, Bool, true, false, not, ◌&&◌, ◌||◌, String, String_eq, List, [],
  ◌∷◌, Option, none, some, is_some, arith, any, any_agree, if◌then◌else◌, Bool-cases, inl, inr,
  is_empty, length,
}
use kubewhy.Diagnosis.{Diagnosis}
use kubewhy.Snapshot.{Existence, unknown, found, missing}
use kubewhy.Snapshot.Api.{entry}
use kubewhy.Snapshot.Service.{ready_count}
use kubewhy.Snapshot.Ingress.{
  Ingress, IngressService, IngressPath, IngressPort, has_port, port_text,
}
use kubewhy.Rules.Ingress.Routing.{
  routes_to, unexposed_ports, ports_found, port_diagnosis, is_external, endpoint_diagnosis,
  no_ready_diagnosis, first_answer, service_found, service_of, check_backend,
}

-- Some route leads to a port that the Service does not expose.
unfoldable pub misroutes : IngressService → List IngressPath → Bool
misroutes service paths = any (λ p. not (has_port service p.port)) paths

-- The endpoints are known, and none that it should have is ready.
unfoldable pub is_unserved : IngressService → Bool
is_unserved service =
    service.endpoints.known
    && not (ltb 0 (ready_count service.endpoints))
    && not (is_external service.service)

abbrev pub broken_as : IngressService → List IngressPath → Existence → Bool
broken_as service paths missing = true
broken_as service paths unknown = false
broken_as service paths found = misroutes service paths || is_unserved service

abbrev pub broken_of : List IngressPath → Option IngressService → Bool
broken_of paths none = false
broken_of paths (some service) = broken_as service paths service.exists

-- A link of the chain behind a backend is broken.
unfoldable pub is_broken : Ingress → String → Bool
is_broken snap name = broken_of (routes_to snap name) (entry snap.services name)

-- The ports that are seen already are left out of the search, and not those that are exposed.
abbrev is_new : IngressService → List String → IngressPath → Bool
is_new service seen p = not (has_port service p.port || any (λ t. t == port_text p.port) seen)

unexposed_ports-is_empty :
    (service : IngressService) (seen : List String) (paths : List IngressPath)
    → is_empty (unexposed_ports service seen paths) ≡ not (any (is_new service seen) paths)
unfolding unexposed_ports any
unexposed_ports-is_empty service seen [] = refl
unexposed_ports-is_empty service seen (p ∷ paths) =
    elim (Bool-cases (has_port service p.port || any (λ t. t == port_text p.port) seen)) [
      | inl e ↦ rw e (unexposed_ports-is_empty service seen paths)
      | inr e ↦ rw e refl
    ]

nothing_seen : (b : Bool) → not (b || false) ≡ not b
nothing_seen b = ground arith

is_new-unseen :
    (service : IngressService) (paths : List IngressPath)
    → any (is_new service []) paths ≡ misroutes service paths
unfolding misroutes
is_new-unseen service paths =
    any_agree _ _ paths (λ p. unfold any in nothing_seen (has_port service p.port))

ports_found-is_some :
    (snap : Ingress) (service : IngressService) (paths : List IngressPath)
    (ports : List IngressPort)
    → is_some (ports_found snap service paths ports) ≡ not (is_empty ports)
ports_found-is_some snap service paths [] = refl
ports_found-is_some snap service paths (p ∷ ps) = refl

not-not : (b : Bool) → not (not b) ≡ b
not-not b = ground arith

port_diagnosis-is_some :
    (snap : Ingress) (service : IngressService) (paths : List IngressPath)
    → is_some (port_diagnosis snap service paths) ≡ misroutes service paths
unfolding port_diagnosis
port_diagnosis-is_some snap service paths =
    ports_found-is_some snap service paths (unexposed_ports service [] paths)
    ∙ ap not (unexposed_ports-is_empty service [] paths)
    ∙ not-not (any (is_new service []) paths)
    ∙ is_new-unseen service paths

endpoint_guards :
    (a b c : Bool) (d : Diagnosis)
    → is_some (if not a || b then none else if c then none else some d) ≡ (a && not b && not c)
endpoint_guards a b c d = ground arith

endpoint_diagnosis-is_some :
    (snap : Ingress) (service : IngressService) (paths : List IngressPath)
    → is_some (endpoint_diagnosis snap service paths) ≡ is_unserved service
unfolding endpoint_diagnosis is_unserved
endpoint_diagnosis-is_some snap service paths =
    endpoint_guards service.endpoints.known (ltb 0 (ready_count service.endpoints))
      (is_external service.service) (no_ready_diagnosis snap service paths)

first_answer-length :
    (a b : Option Diagnosis) → length (first_answer a b) ≡ (if is_some a || is_some b then 1 else 0)
first_answer-length (some d) b = refl
first_answer-length none (some d) = refl
first_answer-length none none = refl

service_found-length :
    (snap : Ingress) (service : IngressService) (paths : List IngressPath) (exists : Existence)
    → length (service_found snap service paths exists)
      ≡ (if broken_as service paths exists then 1 else 0)
service_found-length snap service paths missing = refl
service_found-length snap service paths unknown = refl
service_found-length snap service paths found =
    first_answer-length (port_diagnosis snap service paths) (endpoint_diagnosis snap service paths)
    ∙ rw (port_diagnosis-is_some snap service paths, endpoint_diagnosis-is_some snap service paths)
        refl

service_of-length :
    (snap : Ingress) (paths : List IngressPath) (o : Option IngressService)
    → length (service_of snap paths o) ≡ (if broken_of paths o then 1 else 0)
service_of-length snap paths none = refl
service_of-length snap paths (some service) = service_found-length snap service paths service.exists

-- Of a backend of an Ingress one thing is said where a link of its chain is broken, however many routes
-- lead to it: its Service is known to be missing; or the Service is found, and it does not expose the
-- port of a route; or the Service is found and not of type ExternalName, its endpoints could be read,
-- and none of them is ready. Else nothing is said of it, as where nothing is known of the Service.
pub check_backend-length :
    (snap : Ingress) (name : String)
    → length (check_backend snap name) ≡ (if is_broken snap name then 1 else 0)
unfolding check_backend is_broken
check_backend-length snap name =
    service_of-length snap (routes_to snap name) (entry snap.services name)
