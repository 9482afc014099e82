-- ===== src/Query/Pages.antt =====
-- src/utils/pagination.ts: one page of a list. A page number and a size that are negative are not
-- in the model, which has the numbers from 0.
pub mod Cover
use jobflow_project.Common.{
  List, drop, if◌then◌else◌, length, max, min, suc, take, zero, ℕ, ◌*◌, ◌-◌, ◌==◌,
}

pub record PageRequest : Type 0 where
  pub page : ℕ
  pub page_size : ℕ

pub record PageResult (A : Type 0) : Type 0 where
  pub items : List A
  pub page : ℕ
  pub page_size : ℕ
  pub total : ℕ
  pub total_pages : ℕ

unfoldable pub effective_size : ℕ → ℕ
effective_size n = min 100 (max 1 n)

-- `Math.ceil(total / size) || 1`, with a size of one or more: pages are counted off, on `fuel` the
-- length of the list.
unfoldable pub count_pages : (fuel size left : ℕ) → ℕ
count_pages zero size left = 0
count_pages (suc fuel) size left =
    let rest = count_pages fuel size (left - size) in if left == 0 then 0 else suc rest

unfoldable pub paginate : {A : Type 0} → List A → PageRequest → PageResult A
unfolding effective_size count_pages
paginate items req =
    let page = max 1 req.page in
    let size = effective_size req.page_size in
    let total = length items in
    record {
      items = take size (drop ((page - 1) * size) items);
      page = page;
      page_size = size;
      total = total;
      total_pages = max 1 (count_pages total size total);
    }
