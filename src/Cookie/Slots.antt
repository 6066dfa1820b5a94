-- ===== src/Cookie/Slots.antt =====
-- How TO_WRK_GEN divides the 32 generation slots among the apps (include/udpgrm_internal.h).
use udpgrm.Base.{ℕ, zero, suc, ◌/◌, ◌%◌, ◌≤◌, ◌<◌, ◌≡◌, ◌↔◌, max, arith}
use udpgrm.Cookie.{to_wrk_gen}

-- Slots per app, where `apps` is what a group declares.
abbrev pub slot_size : ℕ → ℕ
slot_size apps = 32 / max 1 apps

-- With at most four apps, an app that is one of them (app 0 where none is declared) has its
-- generations in the 32 slots.
pub to_wrk_gen-lt : (apps app gen : ℕ) → apps ≤ 4 → app < max 1 apps → to_wrk_gen apps app gen < 32
unfolding to_wrk_gen
to_wrk_gen-lt zero app gen h ha = ground arith
to_wrk_gen-lt (suc zero) app gen h ha = ground arith
to_wrk_gen-lt (suc (suc zero)) app gen h ha = ground arith
to_wrk_gen-lt (suc (suc (suc zero))) app gen h ha = ground arith
to_wrk_gen-lt (suc (suc (suc (suc zero)))) app gen h ha = ground arith
to_wrk_gen-lt (suc (suc (suc (suc (suc n))))) app gen h ha = ground arith

-- With at most four apps, two generations share a slot exactly if they belong to one app and are
-- equal modulo the number of slots that each app has; so the slots of two apps are apart.
pub to_wrk_gen_iff :
    (apps app app' gen gen' : ℕ)
    → apps ≤ 4
    → app < max 1 apps
    → app' < max 1 apps
    → (to_wrk_gen apps app gen ≡ to_wrk_gen apps app' gen')
      ↔ ((app ≡ app') × (gen % slot_size apps ≡ gen' % slot_size apps))
unfolding to_wrk_gen
to_wrk_gen_iff zero app app' gen gen' h ha ha' = ground arith
to_wrk_gen_iff (suc zero) app app' gen gen' h ha ha' = ground arith
to_wrk_gen_iff (suc (suc zero)) app app' gen gen' h ha ha' = ground arith
to_wrk_gen_iff (suc (suc (suc zero))) app app' gen gen' h ha ha' = ground arith
to_wrk_gen_iff (suc (suc (suc (suc zero)))) app app' gen gen' h ha ha' = ground arith
to_wrk_gen_iff (suc (suc (suc (suc (suc n))))) app app' gen gen' h ha ha' = ground arith
