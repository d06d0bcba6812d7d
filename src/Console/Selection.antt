-- ===== src/Console/Selection.antt =====
-- What web/src/pages/CFConsole.tsx has selected.
use cloudflared_manager.Base.{
  ◌≡◌, ◌⊎◌, refl, ap, true, false, not, ◌&&◌, some, List, [], ◌∷◌, Str, str_eq, str_eq_iff,
  is_empty, Bool-cases, inl, inr,
}
use mathlib.Core.Bool.{and-eq-true_iff}
use cloudflared_manager.Api.Types.{Tunnel}
use cloudflared_manager.Api.Reply.{done}
use cloudflared_manager.Console.{
  list_tunnels, change_account, delete_tunnel, Console, includes_id, first_of, keep_or_first,
  tunnel_ids, select_account, tunnels_listed, delete_confirmed, on_tunnels, console_step,
  console_steps,
}

first_of-includes_id : (ids : List Str) → (ids ≡ []) ⊎ (includes_id (first_of ids) ids ≡ true)
first_of-includes_id [] = inl refl
first_of-includes_id (id ∷ ids) = inr (let same = (str_eq_iff id id).1 refl in rw same refl)

-- The selection is kept where it is listed, is the first of the list otherwise, and is empty if that is.
pub keep_or_first_sound :
    (prev : Str) (ids : List Str)
    → (includes_id (keep_or_first prev ids) ids ≡ true)
      ⊎ ((ids ≡ []) × (keep_or_first prev ids ≡ []))
unfolding keep_or_first
keep_or_first_sound prev ids = elim (Bool-cases (not (is_empty prev) && includes_id prev ids)) [
  | inl kept ↦
      rw kept (inl ((and-eq-true_iff (not (is_empty prev)) (includes_id prev ids)).0 kept).1)
  | inr lost ↦
      rw lost (elim (first_of-includes_id ids) [ inl e ↦ inr (e, ap first_of e) | inr h ↦ inl h ])
]

-- Behind every list of tunnels that arrives, the selected tunnel is one of the list, or there is none.
pub on_tunnels-includes_id :
    (p : Console) (items : List Tunnel)
    → (let q = on_tunnels (done (some items)) p in
        (q.tunnels ≡ items)
        × ((includes_id q.tid (tunnel_ids items) ≡ true)
            ⊎ ((tunnel_ids items ≡ []) × (q.tid ≡ []))))
unfolding on_tunnels
on_tunnels-includes_id p items = (refl, keep_or_first_sound p.tid (tunnel_ids items))

change_account-load :
    (aid : Str) (p : Console)
    → str_eq aid p.aid ≡ false
    → is_empty aid ≡ false
    → change_account aid p ≡ (record p { aid = aid; tunnels_loading = true }, list_tunnels aid ∷ [])
unfolding change_account
change_account-load aid p h e = rw (h, e)

-- When another account is selected while the tunnels of the one before are on their way, and these arrive
-- last, the console shows them under the other account, one of them selected, and acts on them there.
pub select_account_overtaken :
    (p : Console) (first second : Str) (early late : List Tunnel) (t : Tunnel)
    → str_eq first p.aid ≡ false
    → str_eq second first ≡ false
    → is_empty first ≡ false
    → is_empty second ≡ false
    → (let q =
          (console_steps
            (select_account first
              ∷ select_account second
              ∷ tunnels_listed (done (some late))
              ∷ tunnels_listed (done (some early))
              ∷ [])
            p).0 in
        (q.aid ≡ second)
        × (q.tunnels ≡ early)
        × ((includes_id q.tid (tunnel_ids early) ≡ true) ⊎ ((tunnel_ids early ≡ []) × (q.tid ≡ [])))
        × ((console_step (delete_confirmed t) q).1 ≡ delete_tunnel second t.id ∷ []))
unfolding console_steps console_step on_tunnels
select_account_overtaken p first second early late t h k e f =
    let p1 = record p { aid = first; tunnels_loading = true } in
    rw (change_account-load first p h e, change_account-load second p1 k f)
      (
        refl,
        refl,
        keep_or_first_sound (keep_or_first p.tid (tunnel_ids late)) (tunnel_ids early),
        refl,
      )
