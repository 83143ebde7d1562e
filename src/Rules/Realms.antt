-- ===== src/Rules/Realms.antt =====
-- The realm table of internal/rules/rules.go and the lookup RealmFor, and what the table makes of it.
use xiuxian.Base.{ℕ, ◌+◌, ◌-◌, Bool, List, [], ◌∷◌, String, ◌==◌, if◌then◌else◌, get_or}
use xiuxian.Base.Bisect.{bisect}
use xiuxian.Base.Int.{ℤ, pos, ltb_ℤ}
use xiuxian.Rules.Units.{Cultivation, Duration, points_of_int, nanos_per_hour}
use Prim.Native.Nat.{◌*◌}

pub record Realm : Type 0 where
  pub level : ℕ
  pub name : String
  pub threshold : Cultivation
  pub lifespan : Duration
  pub speed : ℤ
  pub sense_radius : ℤ

-- `rules.Realm{}`
abbrev pub no_realm : Realm
no_realm = record {
  level = 0;
  name = "";
  threshold = pos 0;
  lifespan = pos 0;
  speed = pos 0;
  sense_radius = pos 0;
}

abbrev names : List String
names =
    "凡人" ∷ "炼气初期" ∷ "炼气中期" ∷ "炼气后期" ∷ "筑基初期" ∷ "筑基中期" ∷ "筑基后期" ∷ "金丹初期" ∷ "金丹中期" ∷ "金丹后期" ∷ "元婴初期"
    ∷ "元婴中期" ∷ "元婴后期" ∷ "化神初期" ∷ "化神中期" ∷ "化神后期" ∷ "合体初期" ∷ "合体中期" ∷ "合体后期" ∷ "大乘初期" ∷ "大乘中期"
    ∷ "大乘后期" ∷ "渡劫期" ∷ "人仙" ∷ "天仙" ∷ "金仙" ∷ "大罗金仙" ∷ "九天玄仙" ∷ "罗天上仙" ∷ "仙君" ∷ "仙帝" ∷ "仙尊" ∷ []

abbrev thresholds : List ℕ
thresholds =
    0 ∷ 2 ∷ 3 ∷ 5 ∷ 8 ∷ 13 ∷ 21 ∷ 34 ∷ 55 ∷ 89 ∷ 144 ∷ 233 ∷ 377 ∷ 610 ∷ 987 ∷ 1597 ∷ 2584 ∷ 4181
    ∷ 6765 ∷ 10946 ∷ 17711 ∷ 28657 ∷ 46368 ∷ 75025 ∷ 121393 ∷ 196418 ∷ 317811 ∷ 514229 ∷ 832040
    ∷ 1346269 ∷ 2178309 ∷ 3524578 ∷ []

abbrev speeds : List ℕ
speeds =
    1 ∷ 2 ∷ 3 ∷ 5 ∷ 8 ∷ 13 ∷ 21 ∷ 34 ∷ 55 ∷ 89 ∷ 144 ∷ 233 ∷ 377 ∷ 610 ∷ 987 ∷ 1597 ∷ 2584 ∷ 4181
    ∷ 6765 ∷ 10946 ∷ 17711 ∷ 28657 ∷ 46368 ∷ 75025 ∷ 121393 ∷ 196418 ∷ 317811 ∷ 514229 ∷ 832040
    ∷ 1346269 ∷ 2178309 ∷ 3524578 ∷ []

abbrev lifespans_hours : List ℕ
lifespans_hours =
    1 ∷ 2 ∷ 2 ∷ 2 ∷ 3 ∷ 3 ∷ 3 ∷ 5 ∷ 5 ∷ 5 ∷ 8 ∷ 8 ∷ 8 ∷ 13 ∷ 13 ∷ 13 ∷ 21 ∷ 21 ∷ 21 ∷ 34 ∷ 34 ∷ 34
    ∷ 55 ∷ 89 ∷ 144 ∷ 233 ∷ 377 ∷ 610 ∷ 987 ∷ 1597 ∷ 2584 ∷ 4181 ∷ []

-- One row of the table: for i := range names.
realm_row : ℕ → String → Realm
unfolding points_of_int
realm_row i name = record {
  level = i;
  name = name;
  threshold = points_of_int (pos (get_or thresholds i 0));
  lifespan = pos (get_or lifespans_hours i 0 * nanos_per_hour);
  speed = pos (get_or speeds i 0);
  sense_radius = pos (get_or speeds i 0 * get_or speeds i 0);
}

rows_from : ℕ → List String → List Realm
unfolding realm_row
rows_from i [] = []
rows_from i (n ∷ ns) = realm_row i n ∷ rows_from (i + 1) ns

unfoldable pub realms : List Realm
unfolding rows_from
realms = rows_from 0 names

-- len(realms)-1
abbrev pub top_level : ℕ
top_level = 31

unfoldable pub realm_at : ℕ → Realm
unfolding realms
realm_at i = get_or realms i no_realm

unfoldable pub threshold_above : Cultivation → ℕ → Bool
threshold_above c i = ltb_ℤ c (realm_at i).threshold

unfoldable pub realm_index : Cultivation → ℕ
realm_index c = bisect 32 (threshold_above c) 0 32

unfoldable pub realm_for : Cultivation → Realm
realm_for c = let index = realm_index c in if index == 0 then realm_at 0 else realm_at (index - 1)
