-- ===== src/Token/Commands.antt =====
-- web/src/components/cf/TunnelTokenTab.tsx: the token of a tunnel and the commands that are shown with it. The
-- clipboard is left out.
pub mod Pasting
use cloudflared_manager.Base.{
  ◌≡◌, Bool, true, false, Option, none, some, List, [], ◌∷◌, ◌++◌, or_empty, or_else, Str, codes,
}
use cloudflared_manager.Api.Reply.{Rejection, err_msg, Reply, done, failed}
use cloudflared_manager.Api.Client.Routes.{ApiCall, tunnel_token}

pub record CmdItem : Type 0 where
  pub key : Str
  pub label : Str
  pub note : Option Str
  pub cmd : Str

-- Lines below one another.
abbrev pub command_lines : List Str → Str
command_lines [] = []
command_lines (l ∷ []) = l
command_lines (l ∷ m ∷ ls) = l ++ (10 ∷ command_lines (m ∷ ls))

abbrev pub install_service : Str
install_service = codes "sudo cloudflared service install "

abbrev pub debian_lines : Str
debian_lines = command_lines (
    codes
      "curl -fsSL https://pkg.cloudflare.com/cloudflare-main.gpg | sudo tee /usr/share/keyrings/cloudflare-main.gpg >/dev/null"
    ∷ codes
        "echo \"deb [signed-by=/usr/share/keyrings/cloudflare-main.gpg] https://pkg.cloudflare.com/cloudflared $(lsb_release -cs) main\" | sudo tee /etc/apt/sources.list.d/cloudflared.list"
    ∷ codes "sudo apt-get update && sudo apt-get install -y cloudflared"
    ∷ install_service
    ∷ [])

abbrev pub rhel_lines : Str
rhel_lines = command_lines (
    codes
      "curl -fsSL https://pkg.cloudflare.com/cloudflared-ascii.repo | sudo tee /etc/yum.repos.d/cloudflared.repo"
    ∷ codes "sudo yum install -y cloudflared"
    ∷ install_service
    ∷ [])

abbrev pub docker_lines : Str
docker_lines = command_lines (
    codes "docker run -d --name cloudflared --restart unless-stopped \\"
    ∷ codes "  cloudflare/cloudflared:latest tunnel --no-autoupdate run --token "
    ∷ [])

abbrev pub commands_with : Str → List CmdItem
commands_with t =
    record {
      key = codes "run";
      label = codes "前台运行（任意平台 · 调试用）";
      note = some (codes "直接拉起连接，Ctrl+C 退出；适合先验证 token 是否可用。");
      cmd = codes "cloudflared tunnel run --token " ++ t;
    }
    ∷ record {
      key = codes "linux";
      label = codes "Linux · 安装为系统服务（已装 cloudflared）";
      note = some (codes "装成 systemd 服务并开机自启。");
      cmd = install_service ++ t;
    }
    ∷ record {
      key = codes "debian";
      label = codes "Debian / Ubuntu（apt 安装 + 服务）";
      note = none;
      cmd = debian_lines ++ t;
    }
    ∷ record {
      key = codes "rhel";
      label = codes "RHEL / CentOS / Rocky / Fedora（yum / dnf）";
      note = none;
      cmd = rhel_lines ++ t;
    }
    ∷ record {
      key = codes "windows";
      label = codes "Windows（.msi + 服务）";
      note =
          some
            (codes "先到 GitHub Releases 下载 cloudflared-windows-amd64.msi 安装，再在管理员 PowerShell 执行：");
      cmd = codes "cloudflared.exe service install " ++ t;
    }
    ∷ record {
      key = codes "macos";
      label = codes "macOS（Homebrew）";
      note = none;
      cmd = command_lines (codes "brew install cloudflared" ∷ install_service ∷ []) ++ t;
    }
    ∷ record {
      key = codes "docker";
      label = codes "Docker";
      note = some (codes "容器常驻；--no-autoupdate 避免容器内 cloudflared 自更新。");
      cmd = docker_lines ++ t;
    }
    ∷ []

abbrev pub build_commands : Str → List CmdItem
build_commands token = commands_with (or_else token (codes "<TOKEN>"))

pub record TokenTab : Type 0 where
  pub token : Str
  pub loading : Bool
  pub error : Str

-- `load`, up to its request and behind it.
abbrev pub load_token : Str → Str → TokenTab → TokenTab × List ApiCall
load_token aid tid p = (record p { loading = true; error = [] }, tunnel_token aid tid ∷ [])

abbrev pub on_token : Reply (Option Str) → TokenTab → TokenTab
on_token (done token) p = record p { token = or_empty token; loading = false }
on_token (failed e) p = record p { error = codes "获取 token 失败：" ++ err_msg e; loading = false }
