-- ===== src/Updates/Binaries/Requests.antt =====
-- The versions that web/src/pages/Binaries.tsx has installed, over any sequence of signals.
use cloudflared_manager.Base.{
  ◌≡◌, refl, sym, ap, ◌∙◌, ◌⊎◌, inl, inr, true, false, Option, none, List, [], ◌∷◌, Str, is_empty,
  or_default, All, All-append, if_intro, codes,
}
use cloudflared_manager.Api.Reply.{done, failed}
use cloudflared_manager.Api.Client.Routes.{
  ApiCall, binaries_install, auto_update_get, binaries_list,
}
use cloudflared_manager.Updates.Binaries.{
  BinariesPage, BinariesRequest, api, status_timer, BinariesSignal, mounted, refresh,
  check_available, install_clicked, close_modal, status_due, listed, auto_answered, update_event,
  auto_run, run_answered, available_answered, select_version, activate_clicked, delete_confirmed,
  installed, activated, deleted, on_update_event, on_install, first_tag, binaries_step,
  binaries_steps, first_page, is_phase, tell_user, binary_updated, rolled_back,
}
use cloudflared_manager.Api.Types.{Value}

-- The versions that are put into the selection: the first one of a list that arrives, and a choice.
abbrev pub offered : List BinariesSignal → List Str
offered [] = []
offered (available_answered (done items) ∷ signals) =
    first_tag (or_default items []) ∷ offered signals
offered (select_version v ∷ signals) = v ∷ offered signals
offered (_ ∷ signals) = offered signals

module _ (P : Str → Type 0) where
  abbrev pub InstallsGood : ApiCall → Type 0
  InstallsGood (binaries_install v) = (is_empty v ≡ false) × P v
  InstallsGood _ = Unit

  abbrev pub IsGood : BinariesRequest → Type 0
  IsGood (api call) = InstallsGood call
  IsGood status_timer = Unit

  abbrev IsChosen : BinariesPage → Type 0
  IsChosen p = (p.selected_ver ≡ []) ⊎ P p.selected_ver

  abbrev Keeps : BinariesPage × List BinariesRequest → Type 0
  Keeps out = IsChosen out.0 × All IsGood out.1

  on_install-Keeps : (p : BinariesPage) → IsChosen p → Keeps (on_install p)
  on_install-Keeps p h =
      if_intro Keeps (is_empty p.selected_ver) _ _ (λ e. (h, tt))
        (λ e. elim h [
          | inl gone ↦ let clash : true ≡ false = ap is_empty (sym gone) ∙ e in cc
          | inr fine ↦ (inr fine, ((e, fine), tt))
        ])

  on_update_event-Keeps :
      (payload : Option Value) (p : BinariesPage) → IsChosen p → Keeps (on_update_event payload p)
  on_update_event-Keeps payload p h =
      let listing = record p { loading = true; error = none } in
      let both = api auto_update_get ∷ api binaries_list ∷ [] in
      if_intro Keeps (is_phase (codes "done") payload) (tell_user binary_updated listing, both) _
        (λ e. (h, (tt, (tt, tt))))
        (λ e.
          if_intro Keeps (is_phase (codes "rolled_back") payload)
            (tell_user rolled_back listing, both) _ (λ e. (h, (tt, (tt, tt))))
            (λ e.
              if_intro Keeps (is_phase (codes "error") payload) (listing, both)
                (p, api auto_update_get ∷ []) (λ e. (h, (tt, (tt, tt)))) (λ e. (h, (tt, tt)))))

  binaries_step-Keeps :
      (s : BinariesSignal) (p : BinariesPage)
      → IsChosen p
      → All P (offered (s ∷ []))
      → Keeps (binaries_step s p)
  unfolding binaries_step
  binaries_step-Keeps mounted p h k = (h, (tt, (tt, tt)))
  binaries_step-Keeps refresh p h k = (h, (tt, tt))
  binaries_step-Keeps (listed (done items)) p h k = (h, tt)
  binaries_step-Keeps (listed (failed e)) p h k = (h, tt)
  binaries_step-Keeps (auto_answered (done view)) p h k = (h, tt)
  binaries_step-Keeps (auto_answered (failed e)) p h k = (h, tt)
  binaries_step-Keeps (update_event payload) p h k = on_update_event-Keeps payload p h
  binaries_step-Keeps (auto_run apply label) p h k = (h, (tt, tt))
  binaries_step-Keeps (run_answered label (done u)) p h k = (h, (tt, tt))
  binaries_step-Keeps (run_answered label (failed e)) p h k = (h, tt)
  binaries_step-Keeps status_due p h k = (h, (tt, tt))
  binaries_step-Keeps check_available p h k = (h, (tt, tt))
  binaries_step-Keeps (available_answered (done items)) p h (good, k) = (inr good, tt)
  binaries_step-Keeps (available_answered (failed e)) p h k = (h, tt)
  binaries_step-Keeps (select_version v) p h (good, k) = (inr good, tt)
  binaries_step-Keeps close_modal p h k = (h, tt)
  binaries_step-Keeps install_clicked p h k = on_install-Keeps p h
  binaries_step-Keeps (installed version (done u)) p h k = (h, (tt, tt))
  binaries_step-Keeps (installed version (failed e)) p h k = (h, tt)
  binaries_step-Keeps (activate_clicked version) p h k = (h, (tt, tt))
  binaries_step-Keeps (activated version (done u)) p h k = (h, (tt, tt))
  binaries_step-Keeps (activated version (failed e)) p h k = (h, tt)
  binaries_step-Keeps (delete_confirmed version) p h k = (h, (tt, tt))
  binaries_step-Keeps (deleted version (done u)) p h k = (h, (tt, tt))
  binaries_step-Keeps (deleted version (failed e)) p h k = (h, tt)

  offered-cons :
      (s : BinariesSignal) (signals : List BinariesSignal)
      → All P (offered (s ∷ signals))
      → All P (offered (s ∷ [])) × All P (offered signals)
  offered-cons (available_answered (done items)) signals (good, k) = ((good, tt), k)
  offered-cons (select_version v) signals (good, k) = ((good, tt), k)
  offered-cons s signals k = (tt, k)

  binaries_steps-Keeps :
      (signals : List BinariesSignal) (p : BinariesPage)
      → IsChosen p
      → All P (offered signals)
      → Keeps (binaries_steps signals p)
  unfolding binaries_steps
  binaries_steps-Keeps [] p h k = (h, tt)
  binaries_steps-Keeps (s ∷ signals) p h k =
      let (here, later) = offered-cons s signals k in
      let (h1, first) = binaries_step-Keeps s p h here in
      let (h2, others) = binaries_steps-Keeps signals (binaries_step s p).0 h1 later in
      (h2, All-append IsGood (binaries_step s p).1 _ first others)

  -- Over any signals, each version that is installed is not empty and was put into the selection, as a
  -- choice or as the first one of a list: what holds of all of those holds of it.
  pub binaries_steps-IsGood :
      (signals : List BinariesSignal)
      → All P (offered signals)
      → All IsGood (binaries_steps signals first_page).1
  binaries_steps-IsGood signals k = (binaries_steps-Keeps signals first_page (inl refl) k).1
