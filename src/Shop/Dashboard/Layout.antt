-- ===== src/Shop/Dashboard/Layout.antt =====
-- The places of the panels on the dashboard of a Shop.
use mathlib.Core.Bool.{and-eq-true_iff}
use shop_operator.Base.{
  ℕ, ◌+◌, ◌≡◌, ◌≢◌, refl, ◌⊎◌, ◌≤◌, ◌<◌, Bool, true, ◌&&◌, ◌||◌, not, List, [], ◌∷◌, All, arith,
  leb, ltb, eqb, map,
}
use shop_operator.Api.{Shop}
use shop_operator.Kube.Json.{Json, number}
use shop_operator.Shop.Monitoring.Selection.{at}
use shop_operator.Shop.Dashboard.{dashboard_panels}

-- A number of a JSON value, or 0.
number_of : Json → ℕ
number_of (number n) = n
number_of _ = 0

-- A panel has an id, the column and the row of its upper left corner, and its size.
pub record Place : Type 0 where
  pub id : ℕ
  pub x : ℕ
  pub y : ℕ
  pub w : ℕ
  pub h : ℕ

-- The place that a panel's JSON value names.
pub place : Json → Place
unfolding at number_of
place panel =
    let grid = at "gridPos" panel in
    record {
      id = number_of (at "id" panel);
      x = number_of (at "x" grid);
      y = number_of (at "y" grid);
      w = number_of (at "w" grid);
      h = number_of (at "h" grid);
    }

-- Two panels have their own ids and share no cell.
abbrev pub Apart : Place → Place → Type 0
Apart p q =
    (p.id ≢ q.id) × ((p.x + p.w ≤ q.x) ⊎ (q.x + q.w ≤ p.x) ⊎ (p.y + p.h ≤ q.y) ⊎ (q.y + q.h ≤ p.y))

-- A panel has cells, and none beyond the 24 columns of Grafana.
abbrev pub Fits : Place → Type 0
Fits p = (0 < p.w) × (0 < p.h) × (p.x + p.w ≤ 24)

abbrev pub Laid : List Place → Type 0
Laid [] = Unit
Laid (p ∷ ps) = Fits p × All (Apart p) ps × Laid ps

are_apart : Place → Place → Bool
are_apart p q =
    not (eqb p.id q.id)
    && (leb (p.x + p.w) q.x || leb (q.x + q.w) p.x || leb (p.y + p.h) q.y || leb (q.y + q.h) p.y)

fits : Place → Bool
fits p = ltb 0 p.w && ltb 0 p.h && leb (p.x + p.w) 24

all_apart : Place → List Place → Bool
unfolding are_apart
all_apart p [] = true
all_apart p (q ∷ qs) = are_apart p q && all_apart p qs

are_laid : List Place → Bool
unfolding fits all_apart
are_laid [] = true
are_laid (p ∷ ps) = fits p && all_apart p ps && are_laid ps

are_apart-Apart : (p q : Place) → are_apart p q ≡ true → Apart p q
unfolding are_apart
are_apart-Apart p q h = (λ e. ground arith, ground arith)

all_apart-Apart : (p : Place) (qs : List Place) → all_apart p qs ≡ true → All (Apart p) qs
unfolding all_apart
all_apart-Apart p [] h = tt
all_apart-Apart p (q ∷ qs) h =
    let (here, later) = (and-eq-true_iff (are_apart p q) (all_apart p qs)).0 h in
    (are_apart-Apart p q here, all_apart-Apart p qs later)

fits-Fits : (p : Place) → fits p ≡ true → Fits p
unfolding fits
fits-Fits p h = ground arith

are_laid-Laid : (ps : List Place) → are_laid ps ≡ true → Laid ps
unfolding are_laid
are_laid-Laid [] h = tt
are_laid-Laid (p ∷ ps) h =
    let (first, rest) = (and-eq-true_iff (fits p && all_apart p ps) (are_laid ps)).0 h in
    let (here, apart) = (and-eq-true_iff (fits p) (all_apart p ps)).0 first in
    (fits-Fits p here, all_apart-Apart p ps apart, are_laid-Laid ps rest)

-- On the dashboard of any Shop no two panels have the same id or share a cell, and every panel has
-- cells and stays within the 24 columns.
pub dashboard_panels-Laid : (s : Shop) → Laid (map place (dashboard_panels s))
unfolding are_laid place dashboard_panels
dashboard_panels-Laid s = are_laid-Laid (map place (dashboard_panels s)) refl
