-- ===== src/Tests/Names.antt =====
-- The dictionary of the translator.
use dst_nucleus.Prelude.{List, [], ◌∷◌, false, codes, ◌≡◌, refl, inl, inr, All}
use dst_nucleus.Translator.{Entry, dict, english, chinese, rename}
use dst_nucleus.Translator.RoundTrip.{Has, Visits, is_alone, rename-rename}

Has-each : (es all : List Entry) → ((q : Entry) → Has q es → Has q all) → All (λ q. Has q all) es
Has-each [] all h = tt
Has-each (e ∷ es) all h = (h e (inl refl), Has-each es all (λ q m. h q (inr m)))

in_order : Visits dict
in_order = record { only = Has-each dict dict (λ q h. h); each = λ q h. h }

rename-rename_example :
    (rename english dict (codes "API唤醒通道") ≡ codes "ApiWakeChan")
    × (rename chinese dict (rename english dict (codes "API唤醒通道")) ≡ codes "API唤醒通道")
unfolding dict
rename-rename_example =
    rename-rename dict dict (codes "API唤醒通道") (codes "ApiWakeChan") in_order in_order (inl refl)
      refl

-- Two Chinese names have the same English one.
game_path_shared : is_alone dict (codes "游戏程序路径", codes "GameBinPath") ≡ false
unfolding dict
game_path_shared = refl
