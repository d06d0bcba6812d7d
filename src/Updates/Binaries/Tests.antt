-- ===== src/Updates/Binaries/Tests.antt =====
-- An installation on the page of the binaries.
use cloudflared_manager.Base.{◌≡◌, refl, ◌⊎◌, inl, inr, none, some, List, [], ◌∷◌, codes, All}
use cloudflared_manager.Api.Reply.{done}
use cloudflared_manager.Updates.Types.{AvailableRelease}
use cloudflared_manager.Updates.Binaries.{
  BinariesSignal, check_available, available_answered, select_version, install_clicked,
  binaries_steps, first_page,
}
use cloudflared_manager.Updates.Binaries.Requests.{IsGood, binaries_steps-IsGood}

abbrev newest : AvailableRelease
newest = record {
  tag_name = codes "2026.1.0";
  published_at = [];
  html_url = [];
  asset_url = none;
  sha256 = none;
}

abbrev installation : List BinariesSignal
installation =
    check_available
    ∷ available_answered (done (some (newest ∷ [])))
    ∷ install_clicked
    ∷ select_version []
    ∷ install_clicked
    ∷ []

binaries_steps-IsGood_example :
    All (IsGood (λ v. (v ≡ codes "2026.1.0") ⊎ (v ≡ []))) (binaries_steps installation first_page).1
binaries_steps-IsGood_example =
    binaries_steps-IsGood (λ v. (v ≡ codes "2026.1.0") ⊎ (v ≡ [])) installation
      (inl refl, (inr refl, tt))
