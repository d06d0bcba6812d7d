-- ===== src/Binding/Panel/Stale.antt =====
-- Rows of web/src/components/instance/InstanceCFPanel.tsx that belong to another instance. The panel is kept
-- when the selected instance changes: only its property `id` is another.
use cloudflared_manager.Base.{arith, ◌≡◌, refl, true, false, some, [], ◌∷◌, Str}
use cloudflared_manager.Api.Types.{PublicHostname, TokenInfo, Binding}
use cloudflared_manager.Api.Json.{Numbers}
use cloudflared_manager.Api.Reply.{Rejection, done, failed}
use cloudflared_manager.Binding.{CfPanel, delete_hostname}
use cloudflared_manager.Binding.Panel.{
  show, binding_loaded, hostnames_listed, delete_clicked, step, steps,
}

module _ (numbers : Numbers) (p : CfPanel) where
  -- When the next instance is bound and the listing of its hostnames fails, the panel goes on to
  -- show those of the instance before, and deleting one of them deletes the next instance's rule at
  -- its place.
  pub show-delete_clicked :
      (id : Str) (b : Binding) (t : TokenInfo) (e : Rejection) (row : PublicHostname)
      → b.bound ≡ true
      → (let q =
            (steps numbers
              (show id ∷ binding_loaded id (done (b, t)) ∷ hostnames_listed (failed e) ∷ [])
              p).0 in
          (q.id ≡ id)
          × (q.loading ≡ false)
          × (q.binding ≡ some b)
          × (q.hostnames ≡ p.hostnames)
          × ((step numbers (delete_clicked row) q).1 ≡ delete_hostname id row.index true ∷ []))
  unfolding steps step
  show-delete_clicked id b t e row bound = rw bound (refl, refl, refl, refl, refl)

  -- A reply for the instance before that comes late puts its binding in the place of the next one's.
  show_overtaken :
      (first second : Str) (b c : Binding) (t u : TokenInfo)
      → (let q =
            (steps numbers
              (show first
                ∷ show second
                ∷ binding_loaded second (done (c, u))
                ∷ binding_loaded first (done (b, t))
                ∷ [])
              p).0 in
          (q.id ≡ second) × (q.binding ≡ some b))
  unfolding steps step
  show_overtaken first second b c t u = (ground arith, ground arith)
