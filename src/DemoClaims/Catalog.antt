-- ===== src/DemoClaims/Catalog.antt =====
-- The catalog of the two product families (DEMO_PROFILES), without the texts that are only shown and
-- without the rows a run writes.
use nightpass.Base.{true, false, List, [], ◌∷◌, none, some, Text, codes}
use nightpass.Base.JsNumber.{plus, int}
use nightpass.ProofPlan.{less_or_equal, greater_or_equal}
use nightpass.DemoClaims.{
  DemoProfileSpec, DemoHeadField, DemoClaimField, numeric, membership, text, number, select, column,
  attribute, string_value, number_value, battery, component, head_text_upto,
}

-- `TEXT(name, label, defaultValue)`, with the pattern HEAD_TEXT_PATTERN
abbrev pub text_head : Text → Text → Text → DemoHeadField
text_head name label value = record {
  name = name;
  label = label;
  kind = text;
  target = column;
  options = [];
  default_value = string_value value;
  min = none;
  max = none;
  pattern = some (head_text_upto 40);
}

abbrev pub battery_claims : List DemoClaimField
battery_claims =
    numeric (record {
      field = codes "carbonFootprintKgCO2";
      label = codes "Carbon footprint";
      unit = codes "kg CO2e";
      direction = less_or_equal;
      min = int 1;
      max = int 100000;
      default_value = int 3500;
      default_threshold = int 4000;
    })
    ∷ numeric (record {
      field = codes "capacityKwh";
      label = codes "Usable capacity";
      unit = codes "kWh";
      direction = greater_or_equal;
      min = int 1;
      max = int 1000;
      default_value = int 60;
      default_threshold = int 50;
    })
    ∷ numeric (record {
      field = codes "cycleLife";
      label = codes "Cycle life";
      unit = codes "cycles";
      direction = greater_or_equal;
      min = int 1;
      max = int 20000;
      default_value = int 1800;
      default_threshold = int 1500;
    })
    ∷ numeric (record {
      field = codes "recycledContentPct";
      label = codes "Recycled content";
      unit = codes "%";
      direction = greater_or_equal;
      min = int 0;
      max = int 100;
      default_value = int 16;
      default_threshold = int 10;
    })
    ∷ membership (record {
      field = codes "cellChemistry";
      label = codes "Cell chemistry";
      set_id = codes "chemistry-known";
      default_value = codes "Li-ion NMC";
    })
    ∷ []

abbrev pub battery_head : List DemoHeadField
battery_head =
    text_head (codes "model") (codes "Model name") (codes "TryCell EV-1")
    ∷ text_head (codes "manufacturerId") (codes "Manufacturer") (codes "DemoWorks GmbH")
    ∷ (record {
      name = codes "weightKg";
      label = codes "Weight (kg)";
      kind = number;
      target = column;
      options = [];
      default_value = number_value (int 300);
      min = some (int 1);
      max = some (int 5000);
      pattern = none;
    })
    ∷ (record {
      name = codes "performanceClass";
      label = codes "Performance class";
      kind = select;
      target = column;
      options = codes "A" ∷ codes "B" ∷ codes "C" ∷ codes "D" ∷ codes "E" ∷ [];
      default_value = string_value (codes "B");
      min = none;
      max = none;
      pattern = none;
    })
    ∷ []

abbrev pub battery_spec : DemoProfileSpec
battery_spec = record {
  id = battery;
  label = codes "Battery passport";
  id_prefix = codes "BAT-TRY";
  head = battery_head;
  fixed_head = (codes "batteryCategory", codes "EV") ∷ [];
  primary = codes "carbonFootprintKgCO2";
  claims = battery_claims;
  second_life = true;
}

abbrev pub component_claims : List DemoClaimField
component_claims =
    numeric (record {
      field = codes "cobaltContentPpm";
      label = codes "Cobalt content";
      unit = codes "ppm";
      direction = less_or_equal;
      min = int 1;
      max = int 5000;
      default_value = int 120;
      default_threshold = int 200;
    })
    ∷ numeric (record {
      field = codes "yieldStrengthMpa";
      label = codes "Yield strength";
      unit = codes "MPa";
      direction = greater_or_equal;
      min = int 100;
      max = int 2000;
      default_value = int 485;
      default_threshold = int 450;
    })
    ∷ numeric (record {
      field = codes "hardnessHb";
      label = codes "Hardness";
      unit = codes "HB";
      direction = less_or_equal;
      min = int 50;
      max = int 600;
      default_value = int 207;
      default_threshold = int 235;
    })
    ∷ numeric (record {
      field = codes "wallThicknessMm";
      label = codes "Wall thickness";
      unit = codes "mm";
      direction = greater_or_equal;
      min = int 1;
      max = int 500;
      default_value = plus 85 1;
      default_threshold = int 40;
    })
    ∷ membership (record {
      field = codes "materialGrade";
      label = codes "Material grade";
      set_id = codes "grade-approved";
      default_value = codes "SA-508 Gr.3 Cl.1";
    })
    ∷ membership (record {
      field = codes "supplierId";
      label = codes "Supplier";
      set_id = codes "supplier-qualified";
      default_value = codes "QSL-0031";
    })
    ∷ membership (record {
      field = codes "testMethod";
      label = codes "Qualification test method";
      set_id = codes "ndt-approved";
      default_value = codes "UT";
    })
    ∷ []

abbrev pub component_head : List DemoHeadField
component_head =
    text_head (codes "model") (codes "Designation") (codes "Nozzle forging DN 800")
    ∷ text_head (codes "manufacturerId") (codes "Manufacturer") (codes "DemoForge AG")
    ∷ (record {
      name = codes "weightKg";
      label = codes "Mass (kg)";
      kind = number;
      target = column;
      options = [];
      default_value = number_value (int 1840);
      min = some (int 1);
      max = some (int 100000);
      pattern = none;
    })
    ∷ (record {
      name = codes "SafetyClass";
      label = codes "Safety class";
      kind = select;
      target = attribute;
      options = codes "1" ∷ codes "2" ∷ codes "3" ∷ [];
      default_value = string_value (codes "2");
      min = none;
      max = none;
      pattern = none;
    })
    ∷ []

abbrev pub component_spec : DemoProfileSpec
component_spec = record {
  id = component;
  label = codes "Component passport";
  id_prefix = codes "CMP-TRY";
  head = component_head;
  fixed_head = [];
  primary = codes "cobaltContentPpm";
  claims = component_claims;
  second_life = false;
}
