-- ===== src/Api/Client/Routes/Prefixes.antt =====
-- The segments behind the prefixes that the URLs of web/src/api/client.ts share: the instances, the
-- accounts, and the tunnels and zones of an account.
use cloudflared_manager.Base.{◌≡◌, refl, ap, ◌∙◌, ℕ, true, List, [], ◌∷◌, ◌++◌, Str, codes}
use cloudflared_manager.Api.Client.Routes.{is_segment, Uri}
use cloudflared_manager.Api.Client.Routes.Table.{segments}
use cloudflared_manager.Api.Client.Routes.Paths.{is_clear, glue, at_end, before}

abbrev pub in_accounts : Str
in_accounts = codes "/api/v1/cf/accounts/"

abbrev pub in_configs : Str
in_configs = codes "/api/v1/configs/"

module _ (uri : Uri) where
  -- An escaped parameter at the end, and before another segment.
  pub last_id :
      (lit s : Str)
      → is_clear lit ≡ true
      → segments (lit ++ uri.encode s) ≡ glue (segments lit) (uri.encode s ∷ [])
  last_id lit s clear = at_end lit (uri.encode s) clear (uri.encode_segment s)

  pub under :
      (lit s t : Str)
      → is_clear lit ≡ true
      → segments (lit ++ (uri.encode s ++ 47 ∷ t)) ≡ glue (segments lit) (uri.encode s ∷ segments t)
  under lit s t clear = before lit (uri.encode s) t clear (uri.encode_segment s)

  pub under_config :
      (id t : Str)
      → segments (in_configs ++ (uri.encode id ++ 47 ∷ t))
        ≡ glue (segments in_configs) (uri.encode id ∷ segments t)
  under_config id t = under in_configs id t refl

  pub under_raw :
      (id t : Str)
      → is_segment id ≡ true
      → segments (in_configs ++ (id ++ 47 ∷ t)) ≡ glue (segments in_configs) (id ∷ segments t)
  under_raw id t h = before in_configs id t refl h

  pub under_account :
      (aid t : Str)
      → segments (in_accounts ++ (uri.encode aid ++ 47 ∷ t))
        ≡ glue (segments in_accounts) (uri.encode aid ∷ segments t)
  under_account aid t = under in_accounts aid t refl

  -- Behind an account, what its segments end with.
  abbrev pub behind : Str → List Str → List Str
  behind aid segs = glue (segments in_accounts) (uri.encode aid ∷ segs)

  pub under_tunnel :
      (aid tid t : Str)
      → segments
          (in_accounts ++ (uri.encode aid ++ (codes "/tunnels/" ++ (uri.encode tid ++ 47 ∷ t))))
        ≡ behind aid (glue (segments (codes "tunnels/")) (uri.encode tid ∷ segments t))
  under_tunnel aid tid t =
      under_account aid (codes "tunnels/" ++ (uri.encode tid ++ 47 ∷ t))
      ∙ ap (behind aid) (under (codes "tunnels/") tid t refl)

  pub of_tunnel :
      (aid tid : Str)
      → segments (in_accounts ++ (uri.encode aid ++ (codes "/tunnels/" ++ uri.encode tid)))
        ≡ behind aid (glue (segments (codes "tunnels/")) (uri.encode tid ∷ []))
  of_tunnel aid tid =
      under_account aid (codes "tunnels/" ++ uri.encode tid)
      ∙ ap (behind aid) (last_id (codes "tunnels/") tid refl)

  pub under_zone :
      (aid zid t : Str)
      → segments
          (in_accounts ++ (uri.encode aid ++ (codes "/zones/" ++ (uri.encode zid ++ 47 ∷ t))))
        ≡ behind aid (glue (segments (codes "zones/")) (uri.encode zid ∷ segments t))
  under_zone aid zid t =
      under_account aid (codes "zones/" ++ (uri.encode zid ++ 47 ∷ t))
      ∙ ap (behind aid) (under (codes "zones/") zid t refl)

  pub of_record :
      (aid zid rid : Str)
      → segments (
          in_accounts
          ++ (uri.encode aid
              ++ (codes "/zones/"
                  ++ (uri.encode zid ++ (codes "/dns_records/" ++ uri.encode rid)))))
        ≡ behind aid (
            glue
              (segments (codes "zones/"))
              (uri.encode zid ∷ glue (segments (codes "dns_records/")) (uri.encode rid ∷ [])))
  of_record aid zid rid =
      under_zone aid zid (codes "dns_records/" ++ uri.encode rid)
      ∙ ap (λ u. behind aid (glue (segments (codes "zones/")) (uri.encode zid ∷ u)))
          (last_id (codes "dns_records/") rid refl)

  pub of_hostname :
      (id : Str) (index : ℕ)
      → segments
          (in_configs ++ (uri.encode id ++ (codes "/cf/public-hostnames/" ++ uri.print index)))
        ≡ glue
            (segments in_configs)
            (uri.encode id ∷ glue (segments (codes "cf/public-hostnames/")) (uri.print index ∷ []))
  of_hostname id index =
      under_config id (codes "cf/public-hostnames/" ++ uri.print index)
      ∙ ap (λ u. glue (segments in_configs) (uri.encode id ∷ u))
          (at_end (codes "cf/public-hostnames/") (uri.print index) refl (uri.print_segment index))
