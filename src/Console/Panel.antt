-- ===== src/Console/Panel.antt =====
-- swagger-ui.js, OperationView.mouseEnter and mouseExit: the position that is written to the elements
-- `.content` of an operation, and the element `#api_information_panel` that is shown. Positions and
-- sizes are whole numbers of pixels.
use common_services_common_u.Base.{
  ℕ, ◌+◌, ◌-◌, ◌≤◌, ◌≡◌, refl, Bool, true, false, if◌then◌else◌, ltb, arith,
}

-- What the window shows of the page: its corner, and its size.
pub record Window : Type 0 where
  pub scroll_left : ℕ
  pub scroll_top : ℕ
  pub width : ℕ
  pub height : ℕ

pub record Position : Type 0 where
  pub left : ℕ
  pub top : ℕ

-- One coordinate: `x`, drawn in from the far end of the window and then from the near one. A
-- difference that is negative in the code is below the near end, as 0 is here or equals it.
abbrev pub draw_in : ℕ → ℕ → ℕ → ℕ → ℕ
draw_in near extent size x =
    let far = near + extent in
    let drawn = if ltb far (x + size) then far - size else x in
    if ltb drawn near then near else drawn

-- The position for a mouse at `x` and `y`, and an element of this width and height.
unfoldable pub content_position : Window → ℕ → ℕ → ℕ → ℕ → Position
content_position w wd hgh x y = record {
  left = draw_in w.scroll_left w.width wd x;
  top = draw_in w.scroll_top w.height hgh y;
}

-- What the two handlers write: the left and the top in the style of `.content`, which has no effect on an
-- element that no style sheet positions, and whether `#api_information_panel` is shown. The position of
-- the latter is not written.
pub record Elements : Type 0 where
  pub content : Position
  pub information_panel : Position
  pub is_shown : Bool

unfoldable pub mouse_enter : Window → ℕ → ℕ → ℕ → ℕ → Elements → Elements
unfolding content_position
mouse_enter w wd hgh x y elements = record elements {
  content = content_position w wd hgh x y;
  is_shown = true;
}

unfoldable pub mouse_exit : Elements → Elements
mouse_exit elements = record elements { is_shown = false }

-- The rectangle of this size with its corner there is within the window.
abbrev pub IsInWindow : Window → ℕ → ℕ → Position → Type 0
IsInWindow w wd hgh p =
    ((w.scroll_left ≤ p.left) × (p.left + wd ≤ w.scroll_left + w.width))
    × ((w.scroll_top ≤ p.top) × (p.top + hgh ≤ w.scroll_top + w.height))

draw_in_ge : (near extent size x : ℕ) → near ≤ draw_in near extent size x
draw_in_ge near extent size x = ground arith

draw_in_le :
    (near extent size x : ℕ) → size ≤ extent → draw_in near extent size x + size ≤ near + extent
draw_in_le near extent size x h = ground arith

draw_in_fit :
    (near extent size x : ℕ) → near ≤ x → x + size ≤ near + extent → draw_in near extent size x ≡ x
draw_in_fit near extent size x h k = ground arith

-- The position that mouseEnter writes to `.content`, whose width and height are given and no larger than
-- those of the window: it is that of a rectangle of this size within the window, wherever the mouse
-- is, and the mouse itself if the rectangle fits there. What is shown is `#api_information_panel`, whose
-- own position stays as it is; mouseExit hides it, and leaves both positions.
pub mouse_enter-IsInWindow :
    (w : Window) (wd hgh x y : ℕ) (elements : Elements)
    → wd ≤ w.width
    → hgh ≤ w.height
    → let entered = mouse_enter w wd hgh x y elements in
      IsInWindow w wd hgh entered.content
      × (IsInWindow w wd hgh (record { left = x; top = y })
          → entered.content ≡ record { left = x; top = y })
      × (entered.is_shown ≡ true)
      × (entered.information_panel ≡ elements.information_panel)
      × (mouse_exit entered ≡ record entered { is_shown = false })
unfolding content_position mouse_enter mouse_exit
mouse_enter-IsInWindow w wd hgh x y elements h k = (
  (
    (draw_in_ge w.scroll_left w.width wd x, draw_in_le w.scroll_left w.width wd x h),
    (draw_in_ge w.scroll_top w.height hgh y, draw_in_le w.scroll_top w.height hgh y k),
  ),
  λ ((l, r), (t, b)).
      rw (draw_in_fit w.scroll_left w.width wd x l r, draw_in_fit w.scroll_top w.height hgh y t b)
        refl,
  refl,
  refl,
  refl,
)
