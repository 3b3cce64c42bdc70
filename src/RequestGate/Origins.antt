-- ===== src/RequestGate/Origins.antt =====
-- handlers/common.py: the address behind a proxy, and the headers for an origin.
use astrbot_plugin_webchat_g.Prelude.{
  ◌≡◌, refl, String, Bool, true, false, not, none, some, List, [], ◌∷◌, ◌++◌, ◌==◌, if◌then◌else◌,
  text_key, arith, eq_iff, Bool-cases, inl, inr,
}
use astrbot_plugin_webchat_g.RequestGate.{
  Request, Urls, is_in, is_same_origin, is_origin_allowed, build_cors_headers, last_or, client_ip,
}

last_or-snoc : (x y : String) (ys : List String) → last_or x (ys ++ y ∷ []) ≡ y
last_or-snoc x y [] = refl
last_or-snoc x y (z ∷ ys) = last_or-snoc z y ys

-- Behind a trusted proxy, the address of a request is the entry that the proxy appended, whatever
-- entries and headers the client sent.
pub client_ip_lem :
    (r : Request) (sent : List String) (real : String)
    → client_ip true (record r { forwarded_for = sent ++ real ∷ [] }) ≡ real
unfolding client_ip
client_ip_lem r sent real =
    last_or-snoc
      (if r.real_ip == "" then (if r.remote == "" then "unknown" else r.remote) else r.real_ip) real
      sent

-- For a request with an origin, the headers name an allowed origin exactly where the gate lets the
-- origin pass, and it is the request's own. For a request without one, credentials are allowed exactly where not
-- every origin is.
pub build_cors_headers_lem :
    (urls : Urls) (origin : String) (allowed : List String) (host : String) (allow_missing : Bool)
    → (origin == "") ≡ false
    → (build_cors_headers urls (some origin) allowed host ≡ (
      if is_origin_allowed urls (some origin) allowed host allow_missing then some origin else none,
      true,
    ))
      × ((build_cors_headers urls none allowed host).1 ≡ not (is_in "*" allowed))
unfolding build_cors_headers is_origin_allowed is_same_origin
build_cors_headers_lem urls origin allowed host allow_missing given = (
  ground (
    arith,
    given,
    eq_iff host "",
    eq_iff (urls.netloc origin) host,
    eq_iff (urls.netloc origin) "",
  ),
  elim (Bool-cases (is_in "*" allowed)) [ inl any ↦ rw any refl | inr listed ↦ rw listed refl ],
)
