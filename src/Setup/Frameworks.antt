-- ===== src/Setup/Frameworks.antt =====
-- The dev servers and package managers that a guess knows (internal/setup/guess.go).
use fern.Prelude.{ℕ, Bool, true, false, List, [], ◌∷◌, Bytes, codes}

pub record Framework : Type 0 where
  pub pkg : Bytes
  pub args : Bytes
  pub port : ℕ

abbrev pub frameworks : List Framework
frameworks =
    record { pkg = codes "next"; args = codes "-H 0.0.0.0 -p $PORT"; port = 3000 }
    ∷ record { pkg = codes "nuxt"; args = codes "--host 0.0.0.0 --port $PORT"; port = 3000 }
    ∷ record { pkg = codes "astro"; args = codes "--host 0.0.0.0 --port $PORT"; port = 4321 }
    ∷ record {
      pkg = codes "vite";
      args = codes "--host 0.0.0.0 --port $PORT --strictPort";
      port = 5173;
    }
    ∷ record {
      pkg = codes "@tanstack/react-start";
      args = codes "--host 0.0.0.0 --port $PORT --strictPort";
      port = 3000;
    }
    ∷ record {
      pkg = codes "@sveltejs/kit";
      args = codes "--host 0.0.0.0 --port $PORT --strictPort";
      port = 5173;
    }
    ∷ record {
      pkg = codes "@react-router/dev";
      args = codes "--host 0.0.0.0 --port $PORT";
      port = 5173;
    }
    ∷ []

pub record PackageManager : Type 0 where
  pub name : Bytes
  pub lock : Bytes
  pub install : Bytes
  pub fresh : Bytes
  pub run : Bytes
  pub dashdash : Bool
  pub tool : Bool

abbrev pub bun : Bytes → PackageManager
bun lock = record {
  name = codes "bun";
  lock = lock;
  install = codes "bun install --frozen-lockfile";
  fresh = codes "bun install";
  run = codes "bun run";
  dashdash = false;
  tool = true;
}

abbrev pub npm : PackageManager
npm = record {
  name = codes "npm";
  lock = codes "package-lock.json";
  install = codes "npm install --prefer-offline --no-audit --no-fund";
  fresh = codes "npm install --prefer-offline --no-audit --no-fund";
  run = codes "npm run";
  dashdash = true;
  tool = false;
}

abbrev pub package_managers : List PackageManager
package_managers =
    record {
      name = codes "pnpm";
      lock = codes "pnpm-lock.yaml";
      install = codes "pnpm install --frozen-lockfile --prefer-offline";
      fresh = codes "pnpm install --prefer-offline";
      run = codes "pnpm run";
      dashdash = false;
      tool = true;
    }
    ∷ bun (codes "bun.lock")
    ∷ bun (codes "bun.lockb")
    ∷ record {
      name = codes "yarn";
      lock = codes "yarn.lock";
      install = codes "corepack yarn install";
      fresh = codes "corepack yarn install";
      run = codes "corepack yarn run";
      dashdash = false;
      tool = false;
    }
    ∷ npm
    ∷ []
