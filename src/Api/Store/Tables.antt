-- ===== src/Api/Store/Tables.antt =====
-- A database in memory for the actions on content runs (Api/Store/Inserts).
use aipy.Prelude.{String, refl, Bool, List, ◌==◌, string_eq, nat_eq}
use aipy.Api.Rows.{
  ContentRun, content_run_row, Material, material_row, ContentExport, content_export_row,
  ContentRunMaterial, run_material_row,
}
use aipy.Api.Store.Memory.{memory, content_run_discrete}
use aipy.Api.Store.Inserts.{ContentStore}
use aipy.Api.Store.Lists.{listed}
use aipy.Api.Store.Lenses.{Part, inserts_in, table_in, replace_inserted-some, replace_flushed-some}

pub record ContentDb : Type 0 where
  pub runs : List ContentRun
  pub materials : List Material
  pub exports : List ContentExport
  pub links : List ContentRunMaterial

abbrev pub runs_part : Part ContentDb (List ContentRun)
runs_part = record {
  view = λ db. db.runs;
  replace = λ rs db. record db { runs = rs };
  replaced = λ rs db. refl;
  unchanged = λ db. refl;
}

abbrev pub materials_part : Part ContentDb (List Material)
materials_part = record {
  view = λ db. db.materials;
  replace = λ rs db. record db { materials = rs };
  replaced = λ rs db. refl;
  unchanged = λ db. refl;
}

abbrev pub exports_part : Part ContentDb (List ContentExport)
exports_part = record {
  view = λ db. db.exports;
  replace = λ rs db. record db { exports = rs };
  replaced = λ rs db. refl;
  unchanged = λ db. refl;
}

abbrev pub links_part : Part ContentDb (List ContentRunMaterial)
links_part = record {
  view = λ db. db.links;
  replace = λ rs db. record db { links = rs };
  replaced = λ rs db. refl;
  unchanged = λ db. refl;
}

unfoldable pub content_tables : (String → String → Bool) → ContentStore ContentDb
unfolding memory listed inserts_in table_in
content_tables ilike = record {
  runs = table_in runs_part (memory content_run_row content_run_discrete (λ a b. a == b));
  materials = inserts_in materials_part (listed material_row);
  exports = inserts_in exports_part (listed content_export_row);
  links = inserts_in links_part (listed run_material_row);
  ilike = ilike;
  flush_frame = λ db db' old new r h t.
      let (s, _o, after) = replace_flushed-some runs_part db db' r _ h in
      rw after (refl, refl, refl);
  export_frame = λ db db' r h t.
      let (s, _o, after) = replace_inserted-some exports_part db db' _ h in
      rw after (refl, refl, refl);
  link_frame = λ db db' r h t.
      let (s, _o, after) = replace_inserted-some links_part db db' _ h in
      rw after (refl, refl, refl);
}
