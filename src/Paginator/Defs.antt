-- ===== src/Paginator/Defs.antt =====
-- The items and the current page of `EmbedPaginator`, its view, and the handlers of its buttons. A
-- page is shown as its items; the embed that is made of them, the footer and the callback that
-- follows an update are left out. The messages that it sends are values.
use dro_asms.Prelude.{
  ℕ, suc, zero, ◌+◌, ◌-◌, ◌*◌, ◌/◌, max, min, Bool, false, not, ◌&&◌, Option, none, some, List, [],
  ◌∷◌, ◌++◌, length, take, drop, ltb, leb, ◌==◌, if◌then◌else◌,
}
use dro_asms.Prelude.Int.{ℤ, pos, negsuc}

-- An option of the select menu and what a user picks in it: `str(n)`, "more", or no number.
pub data Value : Type 0 where
  number : ℤ → Value
  more not_a_number : Value

-- The components of the view.
pub data Component : Type 0 where
  prev_button next_button : (disabled : Bool) → Component
  page_indicator : (shown total : ℕ) → Component
  jump_select : List Value → Component

pub record PageInfo : Type 0 where
  pub current_page : ℕ
  pub total_pages : ℕ
  pub page_size : ℕ
  pub total_items : ℕ
  pub current_items : ℕ

-- `range(first, first + n)`, as the numbers of select options.
abbrev pub options_from : ℕ → ℕ → List Value
options_from first zero = []
options_from first (suc n) = number (pos first) ∷ options_from (suc first) n

-- The select menu, of the first twenty pages.
abbrev pub jump_options : ℕ → List Value
jump_options total =
    options_from 1 (min (total + 1) 21 - 1) ++ (if ltb 20 total then more ∷ [] else [])

-- `self.author_id and interaction.user.id != self.author_id`
unfoldable pub is_stranger : Option ℕ → ℕ → Bool
is_stranger none user = false
is_stranger (some author) user = not (author == 0) && not (user == author)

module _ {ℓ} (A : Type ℓ) where
  pub record Paginator : Type ℓ where
    pub items : List A
    pub page_size : ℕ
    pub author_id : Option ℕ
    pub show_indicator : Bool
    pub total_pages : ℕ
    pub current_page : ℕ

  -- What a click leads to: a message, an edited panel, or nothing.
  pub data Reply : Type ℓ where
    only_owner use_buttons invalid_page no_reply : Reply
    edited : List A → List Component → Reply

module _ {ℓ} {A : Type ℓ} where
  -- `max(1, (len(items) + page_size - 1) // page_size)`, where page_size is not 0
  unfoldable pub page_count : List A → ℕ → ℕ
  page_count items page_size = max 1 ((length items + page_size - 1) / page_size)

  -- The constructor; `none` is the ZeroDivisionError.
  unfoldable pub new : List A → ℕ → Option ℕ → Bool → Option (Paginator A)
  new xs zero author indicator = none
  new xs (suc n) author indicator = some (record {
    items = xs;
    page_size = suc n;
    author_id = author;
    show_indicator = indicator;
    total_pages = page_count xs (suc n);
    current_page = 0;
  })

  unfoldable pub get_page_items : Paginator A → ℤ → List A
  get_page_items p (negsuc n) = []
  get_page_items p (pos n) =
      if leb p.total_pages n then [] else take p.page_size (drop (n * p.page_size) p.items)

  unfoldable pub create_view : Paginator A → List Component
  create_view p =
      if leb p.total_pages 1
      then []
      else (prev_button (leb p.current_page 0) ∷ [])
        ++ (if p.show_indicator then page_indicator (p.current_page + 1) p.total_pages ∷ [] else [])
        ++ (next_button (leb (p.total_pages - 1) p.current_page) ∷ [])
        ++ (if ltb 5 p.total_pages then jump_select (jump_options p.total_pages) ∷ [] else [])

  unfoldable pub update_page : Paginator A → Reply A × Paginator A
  update_page p = (edited (get_page_items p (pos p.current_page)) (create_view p), p)

  unfoldable pub on_prev_page : ℕ → Paginator A → Reply A × Paginator A
  on_prev_page user p =
      if is_stranger p.author_id user
      then (only_owner, p)
      else if ltb 0 p.current_page
      then update_page (record p { current_page = p.current_page - 1 })
      else (no_reply, p)

  unfoldable pub on_next_page : ℕ → Paginator A → Reply A × Paginator A
  on_next_page user p =
      if is_stranger p.author_id user
      then (only_owner, p)
      else if ltb p.current_page (p.total_pages - 1)
      then update_page (record p { current_page = p.current_page + 1 })
      else (no_reply, p)

  -- `page_num = int(selected_value) - 1`, kept where it is a page.
  unfoldable pub jump_to : ℤ → Paginator A → Reply A × Paginator A
  jump_to (negsuc n) p = (no_reply, p)
  jump_to (pos zero) p = (no_reply, p)
  jump_to (pos (suc n)) p =
      if ltb n p.total_pages then update_page (record p { current_page = n }) else (no_reply, p)

  abbrev pub jump_selected : List Value → Paginator A → Reply A × Paginator A
  jump_selected [] p = (no_reply, p)
  jump_selected (more ∷ vs) p = (use_buttons, p)
  jump_selected (not_a_number ∷ vs) p = (invalid_page, p)
  jump_selected (number z ∷ vs) p = jump_to z p

  unfoldable pub on_jump_page : ℕ → List Value → Paginator A → Reply A × Paginator A
  unfolding jump_to
  on_jump_page user values p =
      if is_stranger p.author_id user then (only_owner, p) else jump_selected values p

  unfoldable pub refresh_items : List A → Paginator A → Paginator A
  refresh_items xs p =
      let total = page_count xs p.page_size in
      record p {
        items = xs;
        total_pages = total;
        current_page = if leb total p.current_page then max 0 (total - 1) else p.current_page;
      }

  unfoldable pub get_current_page_info : Paginator A → PageInfo
  get_current_page_info p = record {
    current_page = p.current_page;
    total_pages = p.total_pages;
    page_size = p.page_size;
    total_items = length p.items;
    current_items = length (get_page_items p (pos p.current_page));
  }
