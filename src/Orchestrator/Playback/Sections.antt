-- ===== src/Orchestrator/Playback/Sections.antt =====
-- The cases of one section of a playback task.
use fastapi_claude_voice_age.Base.{◌≡◌, refl, Bool, true, false, String, [], if◌then◌else◌}
use fastapi_claude_voice_age.Orchestrator.Playback.{
  Transport, Wake, Playback, Ran, is_done, at, abort, go, resume,
}

if_cases {ℓ κ} :
    {A : Type ℓ} (Q : A → Type κ) (b : Bool) (x y : A)
    → (b ≡ true → Q x)
    → (b ≡ false → Q y)
    → Q (if b then x else y)
if_cases Q true x y hx hy = hx refl
if_cases Q false x y hx hy = hy refl

-- A section of a task: it is done, or it is cancelled, or it goes on from where it stands.
pub resume_cases {ℓ} :
    (transport : Transport) (sid : String) (Q : Ran → Type ℓ) (p : Playback) (w : Wake)
    → (is_done p ≡ true → Q (at transport sid p p.pc []))
    → Q (abort transport sid p)
    → Q (go transport sid p p.pc w)
    → Q (resume transport sid p w)
unfolding resume
resume_cases transport sid Q p w at_end cancelled goes_on =
    if_cases Q (is_done p) (at transport sid p p.pc [])
      (if p.cancelling then abort transport sid p else go transport sid p p.pc w) at_end
      (λ _.
        if_cases Q p.cancelling (abort transport sid p) (go transport sid p p.pc w) (λ _. cancelled)
          (λ _. goes_on))
