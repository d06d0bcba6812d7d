-- ===== src/Updates/Auto/Editing.antt =====
-- The form of web/src/components/AutoUpdateCard.tsx over any sequence of edits, events and answers.
use cloudflared_manager.Base.{
  ◌≡◌, refl, ap, ◌∙◌, Bool, true, false, List, [], ◌∷◌, ◌++◌, if◌then◌else◌, sym, append_assoc,
}
use cloudflared_manager.Api.Types.{Fields}
use cloudflared_manager.Api.Reply.{done, failed}
use cloudflared_manager.Api.Client.Routes.{auto_update_put}
use cloudflared_manager.Updates.Types.{AutoUpdateSettings}
use cloudflared_manager.Updates.Auto.{
  AutoCard, AutoRequest, api, AutoSignal, load, submit, update_event, status_due, loaded,
  saved_answer, status_answered, edit_form, trigger, run_answered, form_values, auto_step,
  auto_steps,
}

-- What a signal makes of the form: an edit, the answer to a load or a save, and nothing else.
abbrev pub edited : AutoSignal → AutoUpdateSettings → AutoUpdateSettings
edited (edit_form v) form = v
edited (loaded (done view)) form = view.settings
edited (saved_answer (done view)) form = view.settings
edited _ form = form

abbrev pub edits : List AutoSignal → AutoUpdateSettings → AutoUpdateSettings
edits [] form = form
edits (s ∷ signals) form = edits signals (edited s form)

-- The forms as they were submitted.
abbrev pub is_submit : AutoSignal → Bool
is_submit submit = true
is_submit _ = false

abbrev pub submitted : List AutoSignal → AutoUpdateSettings → List Fields
submitted [] form = []
submitted (s ∷ signals) form =
    (if is_submit s then form_values form ∷ [] else []) ++ submitted signals (edited s form)

-- The settings that the requests send.
abbrev pub put_of : AutoRequest → List Fields
put_of (api (auto_update_put patch)) = patch ∷ []
put_of _ = []

abbrev pub puts : List AutoRequest → List Fields
puts [] = []
puts (r ∷ requests) = put_of r ++ puts requests

puts-append : (xs ys : List AutoRequest) → puts (xs ++ ys) ≡ puts xs ++ puts ys
puts-append [] ys = refl
puts-append (x ∷ xs) ys =
    ap (λ r. put_of x ++ r) (puts-append xs ys) ∙ sym (append_assoc (put_of x) (puts xs) (puts ys))

-- A step edits the form as the signal says and sends it where it is submitted.
abbrev IsEdited : AutoSignal → AutoCard → Type 0
IsEdited s p =
    ((auto_step s p).0.form ≡ edited s p.form)
    × (puts (auto_step s p).1 ≡ (if is_submit s then form_values p.form ∷ [] else []))

auto_step-IsEdited : (s : AutoSignal) (p : AutoCard) → IsEdited s p
unfolding auto_step
auto_step-IsEdited load p = (refl, refl)
auto_step-IsEdited (loaded (done view)) p = (refl, refl)
auto_step-IsEdited (loaded (failed e)) p = (refl, refl)
auto_step-IsEdited (edit_form v) p = (refl, refl)
auto_step-IsEdited submit p = (refl, refl)
auto_step-IsEdited (saved_answer (done view)) p = (refl, refl)
auto_step-IsEdited (saved_answer (failed e)) p = (refl, refl)
auto_step-IsEdited update_event p = (refl, refl)
auto_step-IsEdited status_due p = (refl, refl)
auto_step-IsEdited (status_answered (done view)) p = (refl, refl)
auto_step-IsEdited (status_answered (failed e)) p = (refl, refl)
auto_step-IsEdited (trigger opts label) p = (refl, refl)
auto_step-IsEdited (run_answered label (done u)) p = (refl, refl)
auto_step-IsEdited (run_answered label (failed e)) p = (refl, refl)

-- Over any signals the form is what was edited, loaded or saved last: no event, no answer about the state
-- and no run of an update touches it. The settings that are sent are the forms as they were submitted.
pub auto_steps-submitted :
    (signals : List AutoSignal) (p : AutoCard)
    → let out = auto_steps signals p in
      (out.0.form ≡ edits signals p.form) × (puts out.1 ≡ submitted signals p.form)
unfolding auto_steps
auto_steps-submitted [] p = (refl, refl)
auto_steps-submitted (s ∷ signals) p =
    let (step, sent) = auto_step-IsEdited s p in
    let (form, others) = auto_steps-submitted signals (auto_step s p).0 in
    (
      form ∙ ap (edits signals) step,
      puts-append (auto_step s p).1 _
          ∙ ap (λ xs. xs ++ puts (auto_steps signals (auto_step s p).0).1) sent
          ∙ ap (λ ys. (if is_submit s then form_values p.form ∷ [] else []) ++ ys)
              (others ∙ ap (submitted signals) step),
    )
