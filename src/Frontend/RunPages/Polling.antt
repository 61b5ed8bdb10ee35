-- ===== src/Frontend/RunPages/Polling.antt =====
-- The effect of RunDetailPage in DeltaCodeApp.tsx that loads a run and loads it again while it is
-- not settled: `load`, its timer of 3500 ms, and the clean-up when the page goes away.
use code_delta.Prelude.{
  ◌≡◌, refl, sym, ap, ◌∙◌, inl, inr, Bool, true, false, not, Option, none, some, List, [], ◌∷◌,
  ◌++◌, map, if◌then◌else◌, Bool-cases, not-true, All, Result, ok, err,
}
use code_delta.Text.{Text}
use code_delta.Frontend.Run.{RunDetail}
use code_delta.Frontend.RunList.{is_active_run}
use code_delta.Frontend.Inbox.Pages.{Failure, aborted, message}
use code_delta.Frontend.RunPages.Detail.{RunPage}

-- The page with the effect: whether it is still there, whether a request is under way, and whether
-- the timer runs.
pub record Polling : Type 0 where
  pub page : RunPage
  pub active : Bool
  pub asked : Bool
  pub timer : Bool

-- The effect of a live page for a number: it asks at once.
abbrev pub started : RunPage → Polling
started page = record { page = page; active = true; asked = true; timer = false }

abbrev pub loaded_page : RunDetail → RunPage → RunPage
loaded_page data_run page = record page { run = some data_run; error = []; loading = false }

abbrev pub failed_page : Text → RunPage → RunPage
failed_page s page = record page { error = s; loading = false }

-- The answer to the request; an answer to a page that is gone changes nothing.
unfoldable pub answered_active : Result Failure RunDetail → Polling → Polling
answered_active (ok data_run) p = record p {
  page = loaded_page data_run p.page;
  asked = false;
  timer = is_active_run data_run.summary.status;
}
answered_active (err aborted) p = record p { asked = false }
answered_active (err (message s)) p = record p { page = failed_page s p.page; asked = false }

unfoldable pub answered : Result Failure RunDetail → Polling → Polling
unfolding answered_active
answered result p = if p.active then answered_active result p else record p { asked = false }

-- The timer is over, and `load` asks again.
abbrev pub fired : Polling → Polling
fired p = record p { asked = true; timer = false }

-- The clean-up.
abbrev pub unmounted : Polling → Polling
unmounted p = record p { active = false; timer = false }

pub data Moves : Polling → Polling → Type 0 where
  answer :
      (p : Polling) (result : Result Failure RunDetail)
      → p.asked ≡ true
      → Moves p (answered result p)
  fire : (p : Polling) → p.timer ≡ true → Moves p (fired p)
  leave : (p : Polling) → Moves p (unmounted p)

-- The states that come behind a state.
pub data Reaches : Polling → Polling → Type 0 where
  here : (p : Polling) → Reaches p p
  further : (p q r : Polling) → Reaches p q → Moves q r → Reaches p r

-- Does the page show a run that is not settled yet?
abbrev pub shows_active : Option RunDetail → Bool
shows_active none = false
shows_active (some run) = is_active_run run.summary.status

-- The timer runs only on a page that is there, that has no request under way and that shows a run
-- which is not settled.
pub record IsCalm (p : Polling) : Type 0 where
  pub alone : p.timer ≡ true → p.asked ≡ false
  pub present : p.timer ≡ true → p.active ≡ true
  pub shown : p.timer ≡ true → shows_active p.page.run ≡ true

answered_active-IsCalm :
    (result : Result Failure RunDetail) (p : Polling)
    → p.asked ≡ true
    → p.active ≡ true
    → IsCalm p
    → IsCalm (answered_active result p)
unfolding answered_active
answered_active-IsCalm (ok data_run) p a h c = record {
  alone = λ t. refl;
  present = λ t. h;
  shown = λ t. t;
}
answered_active-IsCalm (err aborted) p a h c = record {
  alone = λ t. refl;
  present = c.present;
  shown = c.shown;
}
answered_active-IsCalm (err (message s)) p a h c = record {
  alone = λ t. refl;
  present = c.present;
  shown = c.shown;
}

Moves-IsCalm : (p q : Polling) → Moves p q → IsCalm p → IsCalm q
unfolding answered
Moves-IsCalm _ _ (answer p result a) c = elim (Bool-cases p.active) [
  | inl h ↦ simp h (answered_active-IsCalm result p a h c)
  | inr h ↦
      simp h (record { alone = λ t. refl; present = λ t. sym h ∙ c.present t; shown = c.shown })
]
Moves-IsCalm _ _ (fire p t) c = record {
  alone = λ e. absurd cc;
  present = λ e. absurd cc;
  shown = λ e. absurd cc;
}
Moves-IsCalm _ _ (leave p) c = record {
  alone = λ e. absurd cc;
  present = λ e. absurd cc;
  shown = λ e. absurd cc;
}

-- Whatever answers come and whenever the page goes away: the timer of a run page runs only while
-- the page is there, has no request under way and shows a run that is pending or running.
pub started-IsCalm : (page : RunPage) (p : Polling) → Reaches (started page) p → IsCalm p
started-IsCalm page _ (here _) = record {
  alone = λ e. absurd cc;
  present = λ e. absurd cc;
  shown = λ e. absurd cc;
}
started-IsCalm page _ (further _ q r way move) = Moves-IsCalm q r move (started-IsCalm page q way)

-- The timer, when it runs, before the next answer comes.
abbrev pub fire_if_due : Polling → Polling
fire_if_due p = if p.timer then fired p else p

-- The answers one after the other, for as long as the page asks.
unfoldable pub poll : List (Result Failure RunDetail) → Polling → Polling
unfolding answered
poll [] p = p
poll (result ∷ results) p =
    let rest = poll results (fire_if_due (answered result p)) in if p.asked then rest else p

-- An answer behind which the page does not ask again: an error, or a run that is settled.
abbrev pub is_last : Result Failure RunDetail → Bool
is_last (ok data_run) = not (is_active_run data_run.summary.status)
is_last (err failure) = true

-- The page behind runs that are not settled.
abbrev pub page_after : List RunDetail → RunPage → RunPage
page_after [] page = page
page_after (run ∷ runs) page = page_after runs (loaded_page run page)

poll-stopped :
    (results : List (Result Failure RunDetail)) (p : Polling) → p.asked ≡ false → poll results p ≡ p
unfolding poll
poll-stopped [] p h = refl
poll-stopped (result ∷ results) p h = simp h

last-poll :
    (last : Result Failure RunDetail) (rest : List (Result Failure RunDetail)) (page : RunPage)
    → is_last last ≡ true
    → poll (last ∷ rest) (started page) ≡ answered_active last (started page)
unfolding poll answered answered_active
last-poll (ok data_run) rest page h =
    simp (not-true (is_active_run data_run.summary.status) h) (poll-stopped rest _ refl)
last-poll (err aborted) rest page h = poll-stopped rest _ refl
last-poll (err (message s)) rest page h = poll-stopped rest _ refl

-- While the runs that the API sends are pending or running, the page asks again behind each of
-- them; at the first answer that is an error or a settled run it stops: it shows what that answer
-- leads to, no request is under way, no timer runs, and later answers are not asked for.
pub poll-last :
    (runs : List RunDetail) (last : Result Failure RunDetail)
    (rest : List (Result Failure RunDetail))
    → (page : RunPage) → All (λ (run : RunDetail). is_active_run run.summary.status ≡ true) runs
    → is_last last ≡ true
    → (poll (map ok runs ++ last ∷ rest) (started page)
        ≡ answered_active last (started (page_after runs page)))
      × ((poll (map ok runs ++ last ∷ rest) (started page)).asked ≡ false)
      × ((poll (map ok runs ++ last ∷ rest) (started page)).timer ≡ false)
unfolding poll answered answered_active
poll-last [] last rest page h l =
    let e = last-poll last rest page l in
    (e, ap (λ p. p.asked) e ∙ quiet_asked last, ap (λ p. p.timer) e ∙ quiet_timer last l)
  where
    quiet_asked : (r : Result Failure RunDetail) → (answered_active r (started page)).asked ≡ false
    quiet_asked (ok data_run) = refl
    quiet_asked (err aborted) = refl
    quiet_asked (err (message s)) = refl

    quiet_timer :
        (r : Result Failure RunDetail)
        → is_last r ≡ true
        → (answered_active r (started page)).timer ≡ false
    quiet_timer (ok data_run) k = not-true (is_active_run data_run.summary.status) k
    quiet_timer (err aborted) k = refl
    quiet_timer (err (message s)) k = refl
poll-last (run ∷ runs) last rest page (a, h) l =
    simp a (poll-last runs last rest (loaded_page run page) h l)
