-- ===== src/Router/Serve/Refused.antt =====
-- A request without credentials or without an identity (internal/router/server.go).
use per_user_container_opera.Common.{◌≡◌, refl, ◌⊎◌, inl, inr, Bool, true, false, ℕ, Text, ℤ}
use per_user_container_opera.Cluster.{Client, World, requests}
use per_user_container_opera.Identity.Extract.{rejected, Rejection}
use per_user_container_opera.Router.Config.{Config, Request}
use per_user_container_opera.Router.Auth.{check_caller_auth}
use per_user_container_opera.Router.Serve.{
  Router, Outcome, turned_away, Clock, identify, authenticated, and_count, serve,
}

module _ (c : Client) (sha256 canonical : Text → Text) (join : Text → ℤ → Text)
    (forward : Text → Request → c.Server → ℕ × c.Server) (cfg : Config) (clock : Clock)
    (rounds : ℕ) where
  -- What a request leaves behind that gets no further than its headers.
  abbrev pub IsRefused : Router → World c.Server → Router × Outcome × World c.Server → Type 0
  IsRefused router w o =
      (o.0 ≡ router)
      × (o.2.server ≡ w.server)
      × (requests o.2.log ≡ requests w.log)
      × ((status : ℕ) × (body : Text) × (o.1 ≡ turned_away status body))

  -- A request that does not authenticate its caller, or that has no identity to be served under, is
  -- turned away with no trace: the server is left as it was, nothing is written, and the
  -- router's cache and counts stay as they are.
  pub serve-IsRefused :
      (router : Router) (r : Request) (w : World c.Server)
      → (check_caller_auth cfg r.header ≡ false)
        ⊎ ((rej : Rejection) × (identify cfg r ≡ rejected rej))
      → IsRefused router w (serve c sha256 canonical join forward cfg clock rounds router r w)
  unfolding serve
  serve-IsRefused router r w (inl e) = rw e (refl, refl, refl, (401, _, refl))
  serve-IsRefused router r w (inr (rej, e)) = by_credentials (check_caller_auth cfg r.header)
    where
      by_credentials :
          (b : Bool)
          → IsRefused router w (
              and_count c sha256 canonical join forward cfg clock rounds
                (authenticated c sha256 canonical join forward cfg clock rounds router r b w))
      by_credentials false = (refl, refl, refl, (401, _, refl))
      by_credentials true = rw e (refl, refl, refl, (rej.status, _, refl))
