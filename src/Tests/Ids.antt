-- ===== src/Tests/Ids.antt =====
-- Names, ids and the scheduler on concrete inputs.
use storebirth.Base.{ℕ, ◌≡◌, refl, [], ◌∷◌, codes, arith}
use storebirth.Names.Sanitize.{IsLowering}
use storebirth.Uid.Owner.{Draw, uid_of, generate_uid-owns_database, generate_uid-owns_worker}
use storebirth.Cron.{fires, closes, run, main_cron}
use storebirth.Cron.Tickers.{main_cron_idle}

-- A table beyond ASCII that changes nothing.
abbrev same_char : ℕ → ℕ
same_char c = c

same_char-IsLowering : IsLowering same_char
same_char-IsLowering c h = ground arith

abbrev first_draw : Draw
first_draw = record { word = 7; b0 = 255; b1 = 1; b2 = 2; b3 = 3 }

generate_uid-owns_database_example :
    uid_of (codes "ann@x.org") first_draw ≡ uid_of (codes "ann@x.org") first_draw
generate_uid-owns_database_example =
    generate_uid-owns_database (codes "ann@x.org") (codes "ann@x.org") first_draw first_draw
      same_char refl

generate_uid-owns_worker_example :
    (codes "1" ≡ codes "1")
    × (uid_of (codes "ann@x.org") first_draw ≡ uid_of (codes "ann@x.org") first_draw)
generate_uid-owns_worker_example =
    generate_uid-owns_worker (codes "ann@x.org") (codes "ann@x.org") first_draw first_draw
      (codes "1") (codes "1") refl

main_cron_idle_example : (run {J = ℕ} (fires 86400000000000 ∷ closes ∷ []) (main_cron 1 2)).1 ≡ []
main_cron_idle_example = main_cron_idle 1 2 (fires 86400000000000 ∷ closes ∷ [])
